-- ===== src/Bacnet/Registry.antt =====
-- The object list as a map from (type, instance) to objects: what each walk does to a lookup.
use bacnet_event_server.Base.{
  ℕ, suc, ◌≡◌, refl, true, false, ◌&&◌, List, [], ◌∷◌, none, arith, length, if◌then◌else◌, ◌==◌,
  is_some,
}
use mathlib.Core.Option
use bacnet_event_server.Bacnet.Model.{Object}
use bacnet_event_server.Bacnet.Objects.{find_object, unlink_object, modify_object}

-- No two objects of the list have the same type and instance.
abbrev pub IsDistinct : List Object → Type 0
IsDistinct [] = Unit {0}
IsDistinct (o ∷ os) = (find_object os o.object_type o.object_instance ≡ none) × IsDistinct os

pub find-unlink_ne :
    (os : List Object) (t i t' i' : ℕ)
    → (t == t' && i == i') ≡ false
    → find_object (unlink_object os t i) t' i' ≡ find_object os t' i'
unfolding find_object unlink_object
find-unlink_ne [] t i t' i' h = refl
find-unlink_ne (o ∷ os) t i t' i' h = ground (arith, find-unlink_ne os t i t' i' h)

pub find-unlink_self :
    (os : List Object) (t i : ℕ) → IsDistinct os → find_object (unlink_object os t i) t i ≡ none
unfolding find_object unlink_object
find-unlink_self [] t i d = refl
find-unlink_self (o ∷ os) t i d = ground (arith, find-unlink_self os t i d.1)

-- A change in place that keeps the key is seen by the lookup of that key only.
pub find-modify :
    (f : Object → Object) (os : List Object) (t i t' i' : ℕ)
    → ((o : Object)
        → ((f o).object_type ≡ o.object_type) × ((f o).object_instance ≡ o.object_instance))
    → find_object (modify_object f os t i) t' i'
      ≡ (if t == t' && i == i' then Option.map f (find_object os t' i') else find_object os t' i')
unfolding find_object modify_object
find-modify f [] t i t' i' k = ground arith
find-modify f (o ∷ os) t i t' i' k = ground (arith, k o, find-modify f os t i t' i' k)

pub length-unlink :
    (os : List Object) (t i : ℕ)
    → is_some (find_object os t i) ≡ true
    → suc (length (unlink_object os t i)) ≡ length os
unfolding find_object unlink_object
length-unlink [] t i h = cc
length-unlink (o ∷ os) t i h = ground (arith, length-unlink os t i)

pub length-modify :
    (f : Object → Object) (os : List Object) (t i : ℕ) → length (modify_object f os t i) ≡ length os
unfolding modify_object
length-modify f [] t i = refl
length-modify f (o ∷ os) t i = ground (arith, length-modify f os t i)

-- Taking an object out cannot make a missing key appear.
pub unlink_none :
    (os : List Object) (t i t' i' : ℕ)
    → find_object os t' i' ≡ none
    → find_object (unlink_object os t i) t' i' ≡ none
unfolding find_object unlink_object
unlink_none [] t i t' i' h = refl
unlink_none (o ∷ os) t i t' i' h = ground (arith, unlink_none os t i t' i')

pub unlink-IsDistinct :
    (os : List Object) (t i : ℕ) → IsDistinct os → IsDistinct (unlink_object os t i)
unfolding unlink_object
unlink-IsDistinct [] t i d = tt
unlink-IsDistinct (o ∷ os) t i d =
    ground
      (arith, unlink-IsDistinct os t i d.1, unlink_none os t i o.object_type o.object_instance d.0)

pub modify_none :
    (f : Object → Object) (os : List Object) (t i t' i' : ℕ)
    → ((o : Object)
        → ((f o).object_type ≡ o.object_type) × ((f o).object_instance ≡ o.object_instance))
    → find_object os t' i' ≡ none
    → find_object (modify_object f os t i) t' i' ≡ none
modify_none f os t i t' i' k h = rw (find-modify f os t i t' i' k, h) (ground arith)

pub modify-IsDistinct :
    (f : Object → Object) (os : List Object) (t i : ℕ)
    → ((o : Object)
        → ((f o).object_type ≡ o.object_type) × ((f o).object_instance ≡ o.object_instance))
    → IsDistinct os
    → IsDistinct (modify_object f os t i)
unfolding modify_object
modify-IsDistinct f [] t i k d = tt
modify-IsDistinct f (o ∷ os) t i k d = ground (
  arith,
  k o,
  modify-IsDistinct f os t i k d.1,
  modify_none f os t i o.object_type o.object_instance k d.0,
)
