-- ===== src/Comparison/Compare/Accepted.antt =====
-- When `Compare` succeeds, and the document that it then returns.
use mathlib.Core.Logic.{◌↔◌}
use kubepreflight.Base.{List, ◌≡◌, refl, ap, sym, ◌⊎◌, inl, inr}
use kubepreflight.Findings.Finding.{Finding}
use kubepreflight.Findings.Report.{Report}
use kubepreflight.Comparison.Model.{Comparison}
use kubepreflight.Comparison.Compare.{MapOrder, compare, compare_indexes, assemble, IndexError}
use kubepreflight.Comparison.Compare.Index.{IsIndexed, index_by_fingerprint_iff}

-- The document for two lists of findings that are themselves the maps.
unfoldable pub document : MapOrder → Report → Report → Comparison
unfolding assemble
document o b c = assemble b c b.findings c.findings (o.range b.findings) (o.range c.findings)

compare_indexes-inl :
    (o : MapOrder) (b c : Report) (d : Comparison) (x y : List Finding ⊎ IndexError)
    → compare_indexes o b c x y ≡ inl d
    → (mb : List Finding) × (mc : List Finding) × (x ≡ inl mb)
      × (y ≡ inl mc)
      × (d ≡ assemble b c mb mc (o.range mb) (o.range mc))
unfolding compare_indexes
compare_indexes-inl o b c d (inr e) y h = absurd (cc)
compare_indexes-inl o b c d (inl mb) (inr e) h = absurd (cc)
compare_indexes-inl o b c d (inl mb) (inl mc) h = (mb, mc, refl, refl, cc)

-- `Compare` returns a document exactly if in both reports every finding has a fingerprint and no
-- two findings share one; it is then the document for the findings of the two reports.
pub compare-inl_iff :
    (o : MapOrder) (b c : Report) (d : Comparison)
    → (compare o b c ≡ inl d) ↔ ((d ≡ document o b c) × IsIndexed b.findings × IsIndexed c.findings)
unfolding compare document
compare-inl_iff o b c d = (
  λ h.
      let (mb, mc, p, q, e) = compare_indexes-inl o b c d _ _ h in
      let (s, i) = (index_by_fingerprint_iff b.findings mb).0 p in
      let (t, j) = (index_by_fingerprint_iff c.findings mc).0 q in (rw (s, t) at e, i, j),
  λ (e, i, j).
      rw
        (
          (index_by_fingerprint_iff b.findings b.findings).1 (refl, i),
          (index_by_fingerprint_iff c.findings c.findings).1 (refl, j),
        )
        (unfold compare_indexes in ap inl (sym e)),
)
