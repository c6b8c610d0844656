-- ===== src/Comparison/Order.antt =====
-- The order of the buckets is a strict total order on the sort keys.
use kubepreflight.Base.{
  ℕ, String, Bool, true, false, ◌/=◌, string_eq, nat_eq, bool_eq, if◌then◌else◌, List, [], ◌∷◌, ◌≡◌,
  ap, ◌∙◌, arith, eq_iff, ltb, codes, codes_inj,
}
use kubepreflight.Base.Order.{
  string_lt, string_lt-IsStrictOrder, ltb-IsStrictOrder, lex, lex-IsStrictOrder, IsStrictOrder,
}
use kubepreflight.Findings.Finding.{Finding}
use kubepreflight.Comparison.Model.{Changed}
use kubepreflight.Comparison.Sort.{
  EntrySortKey, less, sort_key, changed_sort_key, less_entry, less_changed, less_blocker_first,
  is_blocker,
}

-- A sort key as a list of lists of numbers, compared lexicographically twice.
abbrev pub Key : Type 0
Key = List (List ℕ)

abbrev pub key_lt : Key → Key → Bool
key_lt = lex (lex ltb)

pub key_lt-IsStrictOrder : IsStrictOrder key_lt
key_lt-IsStrictOrder = lex-IsStrictOrder (lex-IsStrictOrder ltb-IsStrictOrder)

abbrev pub embed : EntrySortKey → Key
embed k =
    codes k.priority
    ∷ (k.severity_rnk ∷ [])
    ∷ codes k.rule_id
    ∷ codes k.namespace
    ∷ codes k.name
    ∷ codes k.fingerprint
    ∷ []

-- One step of the lexicographic order, at keys `a` and `b`, with what decides a tie.
abbrev step : List ℕ → List ℕ → Bool → Bool
step a b rest = if lex ltb a b then true else if lex ltb b a then false else rest

string_step :
    (s t : String) (rest : Bool)
    → (if s /= t then string_lt s t else rest) ≡ step (codes s) (codes t) rest
string_step s t rest =
    let o = string_lt-IsStrictOrder in ground (arith, eq_iff s t, o.irrefl s, o.connex s t)

rank_step :
    (m n : ℕ) (rest : Bool) → (if m /= n then ltb m n else rest) ≡ step (m ∷ []) (n ∷ []) rest
rank_step m n rest = ground arith

last_step : (s t : String) → string_lt s t ≡ step (codes s) (codes t) false
last_step s t = ground arith

-- The ladder of `less` is the lexicographic order of the embedded keys.
pub less-key_lt : (k l : EntrySortKey) → less k l ≡ key_lt (embed k) (embed l)
unfolding less
less-key_lt k l =
    string_step k.priority l.priority _
    ∙ ap (step (codes k.priority) (codes l.priority)) (
        rank_step k.severity_rnk l.severity_rnk _
        ∙ ap (step (k.severity_rnk ∷ []) (l.severity_rnk ∷ [])) (
            string_step k.rule_id l.rule_id _
            ∙ ap (step (codes k.rule_id) (codes l.rule_id)) (
                string_step k.namespace l.namespace _
                ∙ ap (step (codes k.namespace) (codes l.namespace)) (
                    string_step k.name l.name _
                    ∙ ap (step (codes k.name) (codes l.name))
                        (last_step k.fingerprint l.fingerprint)))))

-- The keys of the three `less` functions.
abbrev pub entry_key : Finding → Key
entry_key f = embed (sort_key f)

abbrev pub changed_key : Changed → Key
changed_key c = embed (changed_sort_key c)

abbrev pub blocker_key : Finding → Key
blocker_key f = ((if is_blocker f then 0 else 1) ∷ []) ∷ entry_key f

pub less_entry-key_lt : (a b : Finding) → less_entry a b ≡ key_lt (entry_key a) (entry_key b)
unfolding less_entry
less_entry-key_lt a b = less-key_lt (sort_key a) (sort_key b)

pub less_changed-key_lt :
    (a b : Changed) → less_changed a b ≡ key_lt (changed_key a) (changed_key b)
unfolding less_changed
less_changed-key_lt a b = less-key_lt (changed_sort_key a) (changed_sort_key b)

blocker_step :
    (a b rest : Bool)
    → (if a /= b then a else rest)
      ≡ step ((if a then 0 else 1) ∷ []) ((if b then 0 else 1) ∷ []) rest
blocker_step a b rest = ground arith

pub less_blocker_first-key_lt :
    (a b : Finding) → less_blocker_first a b ≡ key_lt (blocker_key a) (blocker_key b)
unfolding less_blocker_first
less_blocker_first-key_lt a b =
    blocker_step (is_blocker a) (is_blocker b) _
    ∙ ap (step ((if is_blocker a then 0 else 1) ∷ []) ((if is_blocker b then 0 else 1) ∷ []))
        (less-key_lt (sort_key a) (sort_key b))

fingerprint_of_embed : (k l : EntrySortKey) → embed k ≡ embed l → k.fingerprint ≡ l.fingerprint
fingerprint_of_embed k l e = codes_inj k.fingerprint l.fingerprint (cc)

-- Equal keys have one fingerprint.
pub entry_key-fingerprint :
    (a b : Finding) → entry_key a ≡ entry_key b → a.fingerprint ≡ b.fingerprint
entry_key-fingerprint a b e = unfold sort_key in fingerprint_of_embed (sort_key a) (sort_key b) e

pub changed_key-fingerprint :
    (a b : Changed) → changed_key a ≡ changed_key b → a.fingerprint ≡ b.fingerprint
changed_key-fingerprint a b e =
    unfold changed_sort_key in fingerprint_of_embed (changed_sort_key a) (changed_sort_key b) e

pub blocker_key-fingerprint :
    (a b : Finding) → blocker_key a ≡ blocker_key b → a.fingerprint ≡ b.fingerprint
blocker_key-fingerprint a b e = entry_key-fingerprint a b (cc)
