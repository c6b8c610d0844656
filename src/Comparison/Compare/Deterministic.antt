-- ===== src/Comparison/Compare/Deterministic.antt =====
-- The comparison does not depend on the order in which Go walks its maps.
use mathlib.Core.Logic.{∥∥₁_elim}
use mathlib.Core.Option.{some-injective}
use mathlib.Core.List.{Mem, Perm, filter_map, mem-filter_map}
use mathlib.Core.List.Perm
use kubepreflight.Base.{
  String, Bool, Option, none, some, List, ◌≡◌, refl, ap, ◌∙◌, sym, arith, inl, inr, ◌⊎◌, subst,
  Bool-cases,
}
use kubepreflight.Base.Sorting.{sort, sort-perm_eq}
use kubepreflight.Findings.Execution.{RuleExecutionRecord}
use kubepreflight.Findings.Finding.{Finding}
use kubepreflight.Findings.Report.{Report}
use kubepreflight.Comparison.Model.{Changed}
use kubepreflight.Comparison.Diff.{diff_finding}
use kubepreflight.Comparison.Sort.{less_entry, less_changed, less_blocker_first}
use kubepreflight.Comparison.Order.{
  Key, key_lt, key_lt-IsStrictOrder, less_entry-key_lt, less_changed-key_lt,
  less_blocker_first-key_lt, entry_key, changed_key, blocker_key, entry_key-fingerprint,
  changed_key-fingerprint, blocker_key-fingerprint,
}
use kubepreflight.Comparison.Compare.{
  find, is_empty, changed_entry, MapOrder, classify_current, classify_baseline, compare,
  compare_indexes, assemble, index_by_fingerprint, IndexError,
}
use kubepreflight.Comparison.Compare.Index.{
  IsIndexed, fingerprint_inj, Finding-set, Changed-set, index_by_fingerprint_iff,
}
use kubepreflight.Comparison.Compare.Placed.{
  new_at, changed_at, unchanged_at, as_new, as_changed, as_unchanged, as_resolved,
  as_not_re_evaluated, classify_current-filter_map, classify_baseline-filter_map,
}

module _ {B : Type 0} (set : IsSet B) (less : B → B → Bool) (key : B → Key) (fp : B → String)
    (agrees : (a b : B) → less a b ≡ key_lt (key a) (key b))
    (same : (a b : B) → key a ≡ key b → fp a ≡ fp b) (f : Finding → Option B)
    (keeps : (a : Finding) (b : B) → f a ≡ some b → a.fingerprint ≡ fp b) (m : List Finding)
    (i : IsIndexed m) where
  -- An entry of a bucket comes from the one finding that has its fingerprint.
  from_one :
      (a b : B) (c d : Finding)
      → Mem c m
      → f c ≡ some a
      → Mem d m
      → f d ≡ some b
      → key a ≡ key b
      → a ≡ b
  from_one a b c d mc hc md hd e = some-injective a b (
      sym hc
      ∙ ap f (fingerprint_inj m i c d mc md (keeps c a hc ∙ same a b e ∙ sym (keeps d b hd)))
      ∙ hd)

  bucket-KeyInj :
      (l : List Finding)
      → Perm l m
      → (a b : B) → Mem a (filter_map f l)
      → Mem b (filter_map f l)
      → key a ≡ key b
      → a ≡ b
  bucket-KeyInj l p a b ma mb e = ∥∥₁_elim ((mem-filter_map f l).0 ma) (set a b) (λ (c, mc, hc).
      ∥∥₁_elim ((mem-filter_map f l).0 mb) (set a b)
        (λ (d, md, hd). from_one a b c d ((Perm.mem_iff p).0 mc) hc ((Perm.mem_iff p).0 md) hd e))

  sorted_bucket :
      (l r : List Finding)
      → Perm l m
      → Perm r m
      → sort less (filter_map f l) ≡ sort less (filter_map f r)
  sorted_bucket l r p q =
      sort-perm_eq less key_lt-IsStrictOrder key agrees (filter_map f l) (filter_map f r)
        (bucket-KeyInj l p) (Perm.filter_map f (Perm.trans p (Perm.symm q)))

new_at-keeps :
    (a b : Finding) (o : Option Finding) → new_at a o ≡ some b → a.fingerprint ≡ b.fingerprint
unfolding new_at
new_at-keeps a b none h = ap (λ t. t.fingerprint) (some-injective a b h)
new_at-keeps a b (some c) h = cc

unchanged_at-keeps :
    (a b : Finding) (o : Option Finding) → unchanged_at a o ≡ some b → a.fingerprint ≡ b.fingerprint
unfolding unchanged_at
unchanged_at-keeps a b none h = cc
unchanged_at-keeps a b (some c) h = elim (Bool-cases (is_empty (diff_finding c a))) [
  | inl e ↦ ap (λ t. t.fingerprint) (some-injective a b (rw e at h))
  | inr e ↦ let k : none ≡ some b = rw e at h in cc
]

changed_at-keeps :
    (a : Finding) (b : Changed) (o : Option Finding)
    → changed_at a o ≡ some b
    → a.fingerprint ≡ b.fingerprint
unfolding changed_at changed_entry
changed_at-keeps a b none h = cc
changed_at-keeps a b (some c) h = elim (Bool-cases (is_empty (diff_finding c a))) [
  | inl e ↦ let k : none ≡ some b = rw e at h in cc
  | inr e ↦ ap (λ t. t.fingerprint) (some-injective (changed_entry c a) b (rw e at h))
]

as_new-keeps :
    (m : List Finding) (a : Finding) (b : Finding)
    → as_new m a ≡ some b
    → a.fingerprint ≡ b.fingerprint
unfolding as_new
as_new-keeps m a b h = new_at-keeps a b (find a.fingerprint m) h

as_changed-keeps :
    (m : List Finding) (a : Finding) (b : Changed)
    → as_changed m a ≡ some b
    → a.fingerprint ≡ b.fingerprint
unfolding as_changed
as_changed-keeps m a b h = changed_at-keeps a b (find a.fingerprint m) h

as_unchanged-keeps :
    (m : List Finding) (a : Finding) (b : Finding)
    → as_unchanged m a ≡ some b
    → a.fingerprint ≡ b.fingerprint
unfolding as_unchanged
as_unchanged-keeps m a b h = unchanged_at-keeps a b (find a.fingerprint m) h

as_resolved-keeps :
    (m : List Finding) (ex : List RuleExecutionRecord) (a b : Finding)
    → as_resolved m ex a ≡ some b
    → a.fingerprint ≡ b.fingerprint
unfolding as_resolved
as_resolved-keeps m ex a b h = ground (arith, some-injective a b)

as_not_re_evaluated-keeps :
    (m : List Finding) (ex : List RuleExecutionRecord) (a b : Finding)
    → as_not_re_evaluated m ex a ≡ some b
    → a.fingerprint ≡ b.fingerprint
unfolding as_not_re_evaluated
as_not_re_evaluated-keeps m ex a b h = ground (arith, some-injective a b)

-- The five sorted buckets, for two orders of each map.
module _ (by_baseline by_current : List Finding) (ex : List RuleExecutionRecord)
    (ib : IsIndexed by_baseline) (ic : IsIndexed by_current) (o o' : MapOrder) where
  new-order_irrelevant :
      sort less_blocker_first (classify_current by_baseline (o.range by_current)).new
      ≡ sort less_blocker_first (classify_current by_baseline (o'.range by_current)).new
  new-order_irrelevant =
      ap (sort less_blocker_first) (classify_current-filter_map by_baseline (o.range by_current)).0
      ∙ sorted_bucket Finding-set less_blocker_first blocker_key (λ f. f.fingerprint)
          less_blocker_first-key_lt blocker_key-fingerprint (as_new by_baseline)
          (as_new-keeps by_baseline) by_current ic (o.range by_current) (o'.range by_current)
          (o.range-perm by_current) (o'.range-perm by_current)
      ∙ ap (sort less_blocker_first)
          (sym (classify_current-filter_map by_baseline (o'.range by_current)).0)

  changed-order_irrelevant :
      sort less_changed (classify_current by_baseline (o.range by_current)).changed
      ≡ sort less_changed (classify_current by_baseline (o'.range by_current)).changed
  changed-order_irrelevant =
      ap (sort less_changed) (classify_current-filter_map by_baseline (o.range by_current)).1
      ∙ sorted_bucket Changed-set less_changed changed_key (λ c. c.fingerprint) less_changed-key_lt
          changed_key-fingerprint (as_changed by_baseline) (as_changed-keeps by_baseline) by_current
          ic (o.range by_current) (o'.range by_current) (o.range-perm by_current)
          (o'.range-perm by_current)
      ∙ ap (sort less_changed)
          (sym (classify_current-filter_map by_baseline (o'.range by_current)).1)

  unchanged-order_irrelevant :
      sort less_entry (classify_current by_baseline (o.range by_current)).unchanged
      ≡ sort less_entry (classify_current by_baseline (o'.range by_current)).unchanged
  unchanged-order_irrelevant =
      ap (sort less_entry) (classify_current-filter_map by_baseline (o.range by_current)).2
      ∙ sorted_bucket Finding-set less_entry entry_key (λ f. f.fingerprint) less_entry-key_lt
          entry_key-fingerprint (as_unchanged by_baseline) (as_unchanged-keeps by_baseline)
          by_current ic (o.range by_current) (o'.range by_current) (o.range-perm by_current)
          (o'.range-perm by_current)
      ∙ ap (sort less_entry) (sym (classify_current-filter_map by_baseline (o'.range by_current)).2)

  resolved-order_irrelevant :
      sort less_blocker_first (classify_baseline by_current ex (o.range by_baseline)).0
      ≡ sort less_blocker_first (classify_baseline by_current ex (o'.range by_baseline)).0
  resolved-order_irrelevant =
      ap (sort less_blocker_first)
        (classify_baseline-filter_map by_current ex (o.range by_baseline)).0
      ∙ sorted_bucket Finding-set less_blocker_first blocker_key (λ f. f.fingerprint)
          less_blocker_first-key_lt blocker_key-fingerprint (as_resolved by_current ex)
          (as_resolved-keeps by_current ex) by_baseline ib (o.range by_baseline)
          (o'.range by_baseline) (o.range-perm by_baseline) (o'.range-perm by_baseline)
      ∙ ap (sort less_blocker_first)
          (sym (classify_baseline-filter_map by_current ex (o'.range by_baseline)).0)

  not_re_evaluated-order_irrelevant :
      sort less_blocker_first (classify_baseline by_current ex (o.range by_baseline)).1
      ≡ sort less_blocker_first (classify_baseline by_current ex (o'.range by_baseline)).1
  not_re_evaluated-order_irrelevant =
      ap (sort less_blocker_first)
        (classify_baseline-filter_map by_current ex (o.range by_baseline)).1
      ∙ sorted_bucket Finding-set less_blocker_first blocker_key (λ f. f.fingerprint)
          less_blocker_first-key_lt blocker_key-fingerprint (as_not_re_evaluated by_current ex)
          (as_not_re_evaluated-keeps by_current ex) by_baseline ib (o.range by_baseline)
          (o'.range by_baseline) (o.range-perm by_baseline) (o'.range-perm by_baseline)
      ∙ ap (sort less_blocker_first)
          (sym (classify_baseline-filter_map by_current ex (o'.range by_baseline)).1)

assemble-order_irrelevant :
    (b c : Report) (mb mc : List Finding)
    → IsIndexed mb
    → IsIndexed mc
    → (o o' : MapOrder)
    → assemble b c mb mc (o.range mb) (o.range mc) ≡ assemble b c mb mc (o'.range mb) (o'.range mc)
unfolding assemble
assemble-order_irrelevant b c mb mc ib ic o o' =
    let ex = c.rule_executions in
    rw
      (
        resolved-order_irrelevant mb mc ex ib ic o o',
        not_re_evaluated-order_irrelevant mb mc ex ib ic o o',
        new-order_irrelevant mb mc ex ib ic o o',
        unchanged-order_irrelevant mb mc ex ib ic o o',
        changed-order_irrelevant mb mc ex ib ic o o',
      )
      refl

compare_indexes-order_irrelevant :
    (o o' : MapOrder) (b c : Report) (x y : List Finding ⊎ IndexError)
    → index_by_fingerprint b.findings ≡ x
    → index_by_fingerprint c.findings ≡ y
    → compare_indexes o b c x y ≡ compare_indexes o' b c x y
unfolding compare_indexes
compare_indexes-order_irrelevant o o' b c (inr e) y h k = refl
compare_indexes-order_irrelevant o o' b c (inl mb) (inr e) h k = refl
compare_indexes-order_irrelevant o o' b c (inl mb) (inl mc) h k =
    let (p, i) = (index_by_fingerprint_iff b.findings mb).0 h in
    let (q, j) = (index_by_fingerprint_iff c.findings mc).0 k in
    ap inl (
      assemble-order_irrelevant b c mb mc (subst IsIndexed (sym p) i) (subst IsIndexed (sym q) j) o
        o')

-- The comparison of two documents, or the error, is the same whatever the order in which Go's
-- `range` visits the two maps: the sorts put every bucket in one order.
pub compare-order_irrelevant :
    (o o' : MapOrder) (baseline current : Report)
    → compare o baseline current ≡ compare o' baseline current
unfolding compare
compare-order_irrelevant o o' b c = compare_indexes-order_irrelevant o o' b c _ _ refl refl
