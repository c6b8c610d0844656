-- ===== src/Comparison/Compare/Index.antt =====
-- What `indexByFingerprint` accepts, and what a map of findings then is.
use mathlib.Core.Logic.Or
use mathlib.Core.Logic.{◌↔◌}
use mathlib.Core.HLevel.{⊥_prop}
use mathlib.Core.List.{Mem, not-mem-nil, mem-cons}
use kubepreflight.Base.{
  String, false, string_eq, List, [], ◌∷◌, ◌++◌, ◌≡◌, ◌≢◌, inl, refl, sym, ap, ◌∙◌, arith, eq_iff,
  none, All, All-append, String-set, append-nil, append_assoc, subst,
}
use kubepreflight.Findings.Finding.{Finding}
use kubepreflight.Comparison.Model.{Changed}
use kubepreflight.Comparison.Compare.{find, is_some, index_from, index_by_fingerprint}

pub Finding-set : IsSet Finding
Finding-set = hlevel String-set

pub Changed-set : IsSet Changed
Changed-set = hlevel String-set

-- No finding of the list has this fingerprint.
abbrev pub Fresh : String → List Finding → Type 0
Fresh fp = All (λ g. g.fingerprint ≢ fp)

-- Every finding has a fingerprint, and no two have the same.
abbrev pub IsIndexed : List Finding → Type 0
IsIndexed [] = Unit
IsIndexed (f ∷ fs) = (f.fingerprint ≢ "") × Fresh f.fingerprint fs × IsIndexed fs

pub find_none-Fresh : (fp : String) (fs : List Finding) → is_some (find fp fs) ≡ false → Fresh fp fs
find_none-Fresh fp [] h = tt
find_none-Fresh fp (f ∷ fs) h = ground (arith, eq_iff f.fingerprint fp, find_none-Fresh fp fs)

pub Fresh-find-none : (fp : String) (fs : List Finding) → Fresh fp fs → find fp fs ≡ none
Fresh-find-none fp [] h = refl
Fresh-find-none fp (f ∷ fs) h = ground (arith, eq_iff f.fingerprint fp, Fresh-find-none fp fs)

IsIndexed-snoc :
    (seen : List Finding) (f : Finding)
    → IsIndexed seen
    → f.fingerprint ≢ ""
    → Fresh f.fingerprint seen
    → IsIndexed (seen ++ f ∷ [])
IsIndexed-snoc [] f i n h = (n, tt, tt)
IsIndexed-snoc (g ∷ seen) f (m, fresh, i) n (ne, h) = (
  m,
  All-append (λ k. k.fingerprint ≢ g.fingerprint) seen (f ∷ []) fresh ((λ e. ne (sym e)), tt),
  IsIndexed-snoc seen f i n h,
)

IsIndexed-middle :
    (seen : List Finding) (f : Finding) (fs : List Finding)
    → IsIndexed (seen ++ (f ∷ fs))
    → (f.fingerprint ≢ "") × Fresh f.fingerprint seen
IsIndexed-middle [] f fs (n, h, j) = (n, tt)
IsIndexed-middle (g ∷ seen) f fs (m, fresh, i) =
    let (n, h) = IsIndexed-middle seen f fs i in (n, (Fresh-middle seen fresh, h))
  where
    Fresh-middle :
        (xs : List Finding) → Fresh g.fingerprint (xs ++ (f ∷ fs)) → g.fingerprint ≢ f.fingerprint
    Fresh-middle [] h = λ e. h.0 (sym e)
    Fresh-middle (x ∷ xs) h = Fresh-middle xs h.1

accepted :
    (seen : List Finding) (f : Finding) (fs m : List Finding)
    → index_from seen (f ∷ fs) ≡ inl m
    → (f.fingerprint ≢ "") × Fresh f.fingerprint seen × (index_from (seen ++ (f ∷ [])) fs ≡ inl m)
unfolding index_from
accepted seen f fs m h = (
  ground (arith, eq_iff f.fingerprint ""),
  find_none-Fresh f.fingerprint seen (ground arith),
  ground arith,
)

index_from_sound :
    (seen fs m : List Finding)
    → IsIndexed seen
    → index_from seen fs ≡ inl m
    → (m ≡ seen ++ fs) × IsIndexed m
index_from_sound seen [] m i h =
    let e : seen ≡ m = unfold index_from in cc in
    (sym e ∙ sym (append-nil seen), subst IsIndexed e i)
index_from_sound seen (f ∷ fs) m i h =
    let (n, fresh, rest) = accepted seen f fs m h in
    let (e, j) = index_from_sound (seen ++ (f ∷ [])) fs m (IsIndexed-snoc seen f i n fresh) rest in
    (e ∙ append_assoc seen (f ∷ []) fs, j)

index_from-cons :
    (seen : List Finding) (f : Finding) (fs : List Finding)
    → f.fingerprint ≢ ""
    → Fresh f.fingerprint seen
    → index_from seen (f ∷ fs) ≡ index_from (seen ++ (f ∷ [])) fs
unfolding index_from
index_from-cons seen f fs n h =
    ground (arith, eq_iff f.fingerprint "", Fresh-find-none f.fingerprint seen h)

index_from_complete :
    (seen fs : List Finding) → IsIndexed (seen ++ fs) → index_from seen fs ≡ inl (seen ++ fs)
index_from_complete seen [] i = unfold index_from in ap inl (sym (append-nil seen))
index_from_complete seen (f ∷ fs) i =
    let (n, h) = IsIndexed-middle seen f fs i in
    let e = append_assoc seen (f ∷ []) fs in
    index_from-cons seen f fs n h
    ∙ index_from_complete (seen ++ (f ∷ [])) fs (subst IsIndexed (sym e) i)
    ∙ ap inl e

-- A document is accepted exactly if every finding has a fingerprint and no two share one, and then
-- the map holds exactly its findings.
pub index_by_fingerprint_iff :
    (fs m : List Finding) → (index_by_fingerprint fs ≡ inl m) ↔ ((m ≡ fs) × IsIndexed fs)
unfolding index_by_fingerprint
index_by_fingerprint_iff fs m = (
  λ h. let (e, i) = index_from_sound [] fs m tt h in (e, subst IsIndexed e i),
  λ (e, i). index_from_complete [] fs i ∙ ap inl (sym e),
)

-- In an indexed list a fingerprint names one finding.
pub Mem-Fresh : (a : Finding) (fs : List Finding) → Mem a fs → Fresh a.fingerprint fs → ⊥
Mem-Fresh a [] m h = not-mem-nil m
Mem-Fresh a (f ∷ fs) m (n, h) =
    Or.elim ⊥_prop (mem-cons.0 m) (λ e. n (ap (λ t. t.fingerprint) (sym e)))
      (λ k. Mem-Fresh a fs k h)

Fresh-eq : (s t : String) (fs : List Finding) → s ≡ t → Fresh s fs → Fresh t fs
Fresh-eq s t fs e h = subst (λ u. Fresh u fs) e h

pub fingerprint_inj :
    (fs : List Finding)
    → IsIndexed fs
    → (a b : Finding) → Mem a fs
    → Mem b fs
    → a.fingerprint ≡ b.fingerprint
    → a ≡ b
fingerprint_inj [] i a b m n e = absurd (not-mem-nil m)
fingerprint_inj (f ∷ fs) (ne, fresh, i) a b m n e =
    Or.elim (Finding-set a b) (mem-cons.0 m)
      (λ p.
        Or.elim (Finding-set a b) (mem-cons.0 n) (λ q. p ∙ sym q)
          (λ k.
            absurd
              (Mem-Fresh b fs k (Fresh-eq _ _ fs (sym (ap (λ t. t.fingerprint) p) ∙ e) fresh))))
      (λ k.
        Or.elim (Finding-set a b) (mem-cons.0 n)
          (λ q.
            absurd
              (Mem-Fresh a fs k (Fresh-eq _ _ fs (sym (ap (λ t. t.fingerprint) q) ∙ sym e) fresh)))
          (λ l. fingerprint_inj fs i a b k l e))
