-- ===== src/Sandbox/Pool/Wrapped.antt =====
-- The pool of sandbox/sandbox.go over a wrapping backend, beside the pool over the inner one: the
-- critical sections on the two pools agree.
pub mod Steps
pub mod Histories
use emberbox.Prelude.{Text, Option, none, some, List, [], ◌∷◌, ◌++◌, ◌≡◌, refl, map, length}
use emberbox.Prelude.{inl, inr, Option-cases}
use mathlib.Core.Option
use emberbox.Prelude.Dict
use emberbox.Prelude.Dict.{Dict, map_values}
use emberbox.Sandbox.{Backend, AllocRequest}
use emberbox.Sandbox.Wrapping.{Wraps}
use emberbox.Sandbox.Pool.Sections.{
  Allocation, Pool, insert_active, take_warm, pop_warm, find_active, remove_active, take_all,
  needed, add_warm, handles, rev_onto,
}

module _ {A C : Backend} (m : Wraps A C) where
  abbrev pub wrap_allocation : Allocation C → Allocation A
  wrap_allocation a = record { handle = m.outer a.handle; req = a.req }

  abbrev pub wrap_all : List C.Handle → List A.Handle
  wrap_all [] = []
  wrap_all (h ∷ hs) = m.outer h ∷ wrap_all hs

  abbrev pub wrap_pool : Pool C → Pool A
  wrap_pool p = record {
    cfg = p.cfg;
    warm = wrap_all p.warm;
    active = map_values wrap_allocation p.active;
  }

  abbrev pub wrap_taken : Option (C.Handle × Pool C) → Option (A.Handle × Pool A)
  wrap_taken none = none
  wrap_taken (some (h, p)) = some (m.outer h, wrap_pool p)

  pub wrap_all-append : (xs ys : List C.Handle) → wrap_all (xs ++ ys) ≡ wrap_all xs ++ wrap_all ys
  wrap_all-append [] ys = refl
  wrap_all-append (x ∷ xs) ys = rw (wrap_all-append xs ys) refl

  pub length-wrap_all : (hs : List C.Handle) → length (wrap_all hs) ≡ length hs
  length-wrap_all [] = refl
  length-wrap_all (h ∷ hs) = rw (length-wrap_all hs) refl

  pub insert_active-wrap :
      (p : Pool C) (req : AllocRequest) (h : C.Handle)
      → insert_active A (wrap_pool p) req (m.outer h) ≡ wrap_pool (insert_active C p req h)
  unfolding insert_active
  insert_active-wrap p req h =
      rw
        (
          m.outer_id h,
          ← Dict.insert-map_values wrap_allocation (C.id h) (record { handle = h; req = req })
              p.active,
        )
        refl

  pop_warm-wrap :
      (hs : List C.Handle) (req : AllocRequest) (p : Pool C)
      → pop_warm A (wrap_all hs) req (wrap_pool p) ≡ wrap_taken (pop_warm C hs req p)
  unfolding pop_warm
  pop_warm-wrap [] req p = refl
  pop_warm-wrap (h ∷ hs) req p = rw (insert_active-wrap (record p { warm = hs }) req h) refl

  pub take_warm-wrap :
      (p : Pool C) (req : AllocRequest)
      → take_warm A (wrap_pool p) req ≡ wrap_taken (take_warm C p req)
  unfolding take_warm
  take_warm-wrap p req = pop_warm-wrap p.warm req p

  pub find_active-wrap :
      (p : Pool C) (i : Text)
      → find_active A (wrap_pool p) i ≡ Option.map wrap_allocation (find_active C p i)
  unfolding find_active
  find_active-wrap p i = Dict.lookup-map_values wrap_allocation i p.active

  pub remove_active-wrap :
      (p : Pool C) (i : Text)
      → remove_active A (wrap_pool p) i
        ≡ (Option.map wrap_allocation (remove_active C p i).0, wrap_pool (remove_active C p i).1)
  unfolding remove_active
  remove_active-wrap p i = elim (Option-cases (Dict.lookup i p.active)) [
    | inl none_there ↦
        rw (remove_active, Dict.lookup-map_values wrap_allocation i p.active, none_there) refl
    | inr (a, there) ↦
        rw
          (
            remove_active,
            Dict.lookup-map_values wrap_allocation i p.active,
            there,
            Dict.erase-map_values wrap_allocation i p.active,
          )
          refl
  ]

  handles-wrap :
      (d : Dict (Allocation C)) → handles A (map_values wrap_allocation d) ≡ wrap_all (handles C d)
  unfolding handles
  handles-wrap [] = refl
  handles-wrap ((k, a) ∷ d) = rw (handles-wrap d) refl

  rev_onto-wrap :
      (hs out : List C.Handle)
      → rev_onto A (wrap_all hs) (wrap_all out) ≡ wrap_all (rev_onto C hs out)
  unfolding rev_onto
  rev_onto-wrap [] out = refl
  rev_onto-wrap (h ∷ hs) out = rev_onto-wrap hs (h ∷ out)

  pub take_all-wrap :
      (p : Pool C)
      → take_all A (wrap_pool p) ≡ (wrap_all (take_all C p).0, wrap_pool (take_all C p).1)
  unfolding take_all
  take_all-wrap p =
      rw
        (
          handles-wrap p.active,
          rev_onto-wrap p.warm [],
          wrap_all-append (handles C p.active) (rev_onto C p.warm []),
        )
        refl

  pub needed-wrap : (p : Pool C) → needed A (wrap_pool p) ≡ needed C p
  unfolding needed
  needed-wrap p = rw (length-wrap_all p.warm) refl

  pub add_warm-wrap :
      (p : Pool C) (h : C.Handle)
      → add_warm A (wrap_pool p) (m.outer h) ≡ wrap_pool (add_warm C p h)
  unfolding add_warm
  add_warm-wrap p h = refl
