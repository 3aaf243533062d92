-- ===== src/Tool/Registry/Listing.antt =====
-- `List` of tool/tool.go, which leaves the order open, against `Register` and `Get`.
use emberbox.Prelude.{
  ◌≡◌, refl, Option, some, none, List, [], ◌∷◌, Text, text_eq, if◌then◌else◌, Bool-cases, inl, inr,
  text_eq_iff, ◌∙◌, ap,
}
use emberbox.Prelude.Dict
use emberbox.Tool.{Tool, Tools, register, get, list, new_registry}
use emberbox.Tool.Registry.{IsNamed, register_all, last_named, get-register_all}

-- The tools of a list that have a name, in order.
abbrev pub named : {W : Type 0} → Text → List (Tool W) → List (Tool W)
named name [] = []
named name (t ∷ ts) = let rest = named name ts in if text_eq t.name name then t ∷ rest else rest

abbrev pub at_most_one {ℓ} : {A : Type ℓ} → Option A → List A
at_most_one none = []
at_most_one (some a) = a ∷ []

module _ {W : Type 0} where
  insert-IsNamed : (t : Tool W) (r : Tools W) → IsNamed r → IsNamed (Dict.insert t.name t r)
  unfolding Dict.insert
  insert-IsNamed t [] named = (refl, tt)
  insert-IsNamed t ((k, u) ∷ r) (at_k, named) = elim (Bool-cases (text_eq k t.name)) [
    | inl e ↦ rw e (refl, named)
    | inr e ↦ rw e (at_k, insert-IsNamed t r named)
  ]

  register_all-IsNamed :
      (ts : List (Tool W)) (r : Tools W) → IsNamed r → IsNamed (register_all r ts)
  unfolding register
  register_all-IsNamed [] r named = named
  register_all-IsNamed (t ∷ ts) r named =
      register_all-IsNamed ts (register r t) (insert-IsNamed t r named)

  register_all-NodupKeys :
      (ts : List (Tool W)) (r : Tools W) → Dict.NodupKeys r → Dict.NodupKeys (register_all r ts)
  unfolding register
  register_all-NodupKeys [] r nodup = nodup
  register_all-NodupKeys (t ∷ ts) r nodup =
      register_all-NodupKeys ts (register r t) (Dict.insert-NodupKeys t.name t r nodup)

  named-list :
      (r : Tools W) (name : Text)
      → IsNamed r
      → Dict.NodupKeys r
      → named name (list r) ≡ at_most_one (get r name)
  unfolding list get Dict.values Dict.lookup
  named-list [] name is_named nodup = refl
  named-list ((k, t) ∷ r) name (at_k, is_named) (fresh, nodup) =
      let rest = named-list r name is_named nodup in
      elim (Bool-cases (text_eq k name)) [
        | inl e ↦
            let gone : Dict.lookup name r ≡ none = rw (← (text_eq_iff k name).0 e) fresh in
            rw (ap (λ n. text_eq n name) at_k ∙ e, e)
              (ap (λ ts. t ∷ ts) (rest ∙ ap at_most_one gone))
        | inr e ↦ rw (ap (λ n. text_eq n name) at_k ∙ e, e) rest
      ]

  -- After any calls of Register on a new registry, List has under each name the tool that was
  -- registered last under it, once, and no tool under a name that was never registered; Get finds
  -- the same tool or none.
  pub list-register_all :
      (ts : List (Tool W)) (name : Text)
      → let r = register_all (new_registry W) ts in
        (named name (list r) ≡ at_most_one (last_named name none ts))
        × (get r name ≡ last_named name none ts)
  unfolding new_registry get Dict.lookup
  list-register_all ts name =
      let found : get (register_all [] ts) name ≡ last_named name none ts =
        get-register_all ts [] name in
      (
        named-list (register_all [] ts) name (register_all-IsNamed ts [] tt)
              (register_all-NodupKeys ts [] tt)
            ∙ ap at_most_one found,
        found,
      )
