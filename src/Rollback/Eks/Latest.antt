-- ===== src/Rollback/Eks/Latest.antt =====
-- internal/rollback/eks/eligibility.go: which update `latestSuccessfulVersionUpdate` finds.
use mathlib.Core.Logic.Or
use mathlib.Core.List.{
  Mem, Pairwise, mem-cons_self, mem-cons_of_mem, Mem-prop, not-mem-nil, eq-or-mem_of_mem-cons,
  forall_mem-cons,
}
use mathlib.Core.List.Perm
use mathlib.Core.Option.{some-injective}
use mathlib.Core.Bool.{Bool-set}
use kubepreflight.Base.{
  ℕ, ◌≤◌, String, ◌≡◌, refl, sym, ◌∙◌, ap, subst, Bool, true, false, ◌&&◌, ◌/=◌, string_eq, eq_iff,
  ltb, some, List, [], ◌∷◌, filter, arith, inl, inr, Bool-cases,
}
use kubepreflight.Base.Order.{IsStrictOrder}
use kubepreflight.Base.Sorting.{sort, IsSorted, sort-perm, sort-IsSorted}
use kubepreflight.Rollback.Eks.Snapshot.{UpdateRecord}
use kubepreflight.Rollback.Eks.History.{
  SdkNames, is_version_update, first_of, latest_successful_version_update,
}

abbrev newer : ℕ → ℕ → Bool
newer m n = ltb n m

newer-IsStrictOrder : IsStrictOrder newer
newer-IsStrictOrder = record {
  irrefl = λ a. ground arith;
  trans = λ a b c h k. ground arith;
  connex = λ a b h k. ground arith;
}

abbrev less : UpdateRecord → UpdateRecord → Bool
less a b = ltb b.created_at a.created_at

sorted_first :
    (l : List UpdateRecord) (u : UpdateRecord)
    → IsSorted less l
    → first_of l ≡ some u
    → Mem u l × ((v : UpdateRecord) → Mem v l → ltb u.created_at v.created_at ≡ false)
sorted_first [] u s h = cc
sorted_first (a ∷ l) u (Pairwise.cons below s) h =
    let e : a ≡ u = some-injective a u h in
    subst
      (λ w.
        Mem w (a ∷ l)
        × ((v : UpdateRecord) → Mem v (a ∷ l) → ltb w.created_at v.created_at ≡ false))
      e
      (
        mem-cons_self,
        (forall_mem-cons (λ v. Bool-set (ltb a.created_at v.created_at) false)).1
            (ground arith, below),
      )

module _ (p : UpdateRecord → Bool) where
  mem_of_filter : (l : List UpdateRecord) (x : UpdateRecord) → Mem x (filter p l) → Mem x l
  mem_of_filter [] x m = m
  mem_of_filter (y ∷ l) x m = elim (Bool-cases (p y)) [
    | inl h ↦
        (forall_mem-cons (λ v. Mem-prop)).1
          (mem-cons_self, λ v k. mem-cons_of_mem y (mem_of_filter l v k)) x (rw h at m)
    | inr h ↦ mem-cons_of_mem y (mem_of_filter l x (rw h at m))
  ]

  passes_filter : (l : List UpdateRecord) (x : UpdateRecord) → Mem x (filter p l) → p x ≡ true
  passes_filter [] x m = absurd (not-mem-nil m)
  passes_filter (y ∷ l) x m = elim (Bool-cases (p y)) [
    | inl h ↦ (forall_mem-cons (λ v. Bool-set (p v) true)).1 (h, passes_filter l) x (rw h at m)
    | inr h ↦ passes_filter l x (rw h at m)
  ]

  filter_of_mem :
      (l : List UpdateRecord) (x : UpdateRecord) → p x ≡ true → Mem x l → Mem x (filter p l)
  filter_of_mem [] x h m = m
  filter_of_mem (y ∷ l) x h m =
      Or.elim Mem-prop (eq-or-mem_of_mem-cons m)
        (λ e. rw (sym (ap p e) ∙ h) (subst (λ v. Mem x (v ∷ filter p l)) e mem-cons_self))
        (λ k. later (filter_of_mem l x h k))
    where
      later : Mem x (filter p l) → Mem x (filter p (y ∷ l))
      later k = elim (Bool-cases (p y)) [ inl e ↦ rw e (mem-cons_of_mem y k) | inr e ↦ rw e k ]

-- A successful update of the version to the current one. An update without a version counts, and
-- every version does if the current one is unknown.
pub record IsUpgrade (sdk : SdkNames) (current : String) (u : UpdateRecord) : Type 0 where
  pub type_name : u.type_name ≡ sdk.version_update
  pub successful : u.status ≡ sdk.successful
  pub to_current : current /= "" && (u.version /= "" && u.version /= current) ≡ false

-- An upgrade of the snapshot that no other one is newer than.
pub record IsLatest (sdk : SdkNames) (updates : List UpdateRecord) (current : String)
    (u : UpdateRecord) : Type 0 where
  pub present : Mem u updates
  pub upgrade : IsUpgrade sdk current u
  pub newest :
      (v : UpdateRecord) → Mem v updates → IsUpgrade sdk current v → v.created_at ≤ u.created_at

module _ (sdk : SdkNames) (current : String) where
  is_version_update-IsUpgrade :
      (u : UpdateRecord) → is_version_update sdk current u ≡ true → IsUpgrade sdk current u
  is_version_update-IsUpgrade u h = record {
    type_name = (eq_iff u.type_name sdk.version_update).0 (ground (arith, h));
    successful = (eq_iff u.status sdk.successful).0 (ground (arith, h));
    to_current = ground (arith, h);
  }

  test_of_upgrade :
      (u : UpdateRecord) → IsUpgrade sdk current u → is_version_update sdk current u ≡ true
  test_of_upgrade u i =
      rw
        (
          (eq_iff u.type_name sdk.version_update).1 i.type_name,
          (eq_iff u.status sdk.successful).1 i.successful,
          i.to_current,
        )
        refl

  -- What is found is an upgrade that no other one is newer than.
  pub latest_successful_version_update-IsLatest :
      (updates : List UpdateRecord) (u : UpdateRecord)
      → latest_successful_version_update sdk updates current ≡ some u
      → IsLatest sdk updates current u
  unfolding latest_successful_version_update
  latest_successful_version_update-IsLatest updates u h =
      let p = is_version_update sdk current in
      let kept = filter p updates in
      let sorted = sort-perm less kept in
      let (m, above) =
        sorted_first (sort less kept) u
          (sort-IsSorted less newer-IsStrictOrder (λ v. v.created_at) (λ a b. refl) kept) h in
      let here : Mem u kept = (Perm.mem_iff sorted).0 m in
      record {
        present = mem_of_filter p updates u here;
        upgrade = is_version_update-IsUpgrade u (passes_filter p updates u here);
        newest = λ v k i.
            let q =
              above v
                ((Perm.mem_iff sorted).1 (filter_of_mem p updates v (test_of_upgrade v i) k)) in
            ground (arith, q);
      }

  -- Where there is an upgrade, one is found.
  pub upgrade_found :
      (updates : List UpdateRecord) (u : UpdateRecord)
      → Mem u updates
      → IsUpgrade sdk current u
      → (v : UpdateRecord) × (latest_successful_version_update sdk updates current ≡ some v)
  unfolding latest_successful_version_update
  upgrade_found updates u m i =
      found (sort less kept)
        ((Perm.mem_iff (sort-perm less kept)).1 (filter_of_mem p updates u (test_of_upgrade u i) m))
    where
      p : UpdateRecord → Bool
      p = is_version_update sdk current

      kept : List UpdateRecord
      kept = filter (is_version_update sdk current) updates

      found : (l : List UpdateRecord) → Mem u l → (v : UpdateRecord) × (first_of l ≡ some v)
      found [] k = absurd (not-mem-nil k)
      found (a ∷ l) k = (a, refl)
