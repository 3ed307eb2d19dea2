-- ===== src/Listeners/Order.antt =====
-- `add_listener` of src/listener.c keeps the list in the order of the addresses.
use sniproxy.Prelude.{
  ◌≡◌, refl, sym, ap, subst, ◌∙◌, Bool, true, false, Bool-cases, inl, inr, List, [], ◌∷◌, ◌++◌,
  Option, none, some, ℤ, pos, negsuc, is_negative, is_positive, if◌then◌else◌,
}
use sniproxy.Address.{Address, address_compare}
use sniproxy.Address.Total.{address_compare_order}
use sniproxy.Listeners.{
  Listener, listener_ref_get, is_before, insert_after, insert_listener, has_address, add_listener,
}

-- No listener is behind the one that follows it.
abbrev pub InOrder : Listener → Listener → Type 0
InOrder l m = is_positive (address_compare l.address m.address) ≡ false

abbrev pub IsSorted : List Listener → Type 0
IsSorted [] = Unit
IsSorted (l ∷ []) = Unit
IsSorted (l ∷ m ∷ ls) = InOrder l m × IsSorted (m ∷ ls)

turned :
    (a b : Option Address) → is_negative (address_compare b a) ≡ is_positive (address_compare a b)
turned none none = refl
turned none (some b) = refl
turned (some a) none = refl
turned (some a) (some b) = (address_compare_order a b a).1

not_both : (n : ℤ) → is_negative n ≡ true → is_positive n ≡ false
not_both (pos n) e = absurd cc
not_both (negsuc n) e = refl

before_InOrder : (l m : Listener) → is_before l m ≡ true → InOrder l m
before_InOrder l m e = not_both (address_compare l.address m.address) e

behind_InOrder : (l m : Listener) → is_before l m ≡ false → InOrder m l
behind_InOrder l m e = sym (turned m.address l.address) ∙ e

insert_yes :
    (i m : Listener) (ls : List Listener) (l : Listener)
    → is_before l m ≡ true
    → insert_after i (m ∷ ls) l ≡ i ∷ l ∷ m ∷ ls
unfolding insert_after
insert_yes i m ls l e = rw (insert_after, e) refl

insert_no :
    (i m : Listener) (ls : List Listener) (l : Listener)
    → is_before l m ≡ false
    → insert_after i (m ∷ ls) l ≡ i ∷ insert_after m ls l
unfolding insert_after
insert_no i m ls l e = rw (insert_after, e) refl

-- A sorted list that begins with `i`, and is the old one with `l` put in somewhere.
pub data Inserts (l : Listener) (old : List Listener) (new : List Listener) : Type 0 where
  inserts :
      (before after : List Listener)
      → old ≡ before ++ after
      → new ≡ before ++ (l ∷ after)
      → IsSorted new
      → Inserts l old new

data StartsWith (i : Listener) : List Listener → Type 0 where
  starts_with : (ls : List Listener) → StartsWith i (i ∷ ls)

insert_after-StartsWith :
    (i : Listener) (ls : List Listener) (l : Listener) → StartsWith i (insert_after i ls l)
unfolding insert_after
insert_after-StartsWith i [] l = starts_with (l ∷ [])
insert_after-StartsWith i (m ∷ ls) l = elim (Bool-cases (is_before l m)) [
  | inl e ↦ subst (StartsWith i) (sym (insert_yes i m ls l e)) (starts_with (l ∷ m ∷ ls))
  | inr e ↦ subst (StartsWith i) (sym (insert_no i m ls l e)) (starts_with (insert_after m ls l))
]

IsSorted-cons :
    (i m : Listener) (ls : List Listener)
    → InOrder i m
    → StartsWith m ls
    → IsSorted ls
    → IsSorted (i ∷ ls)
IsSorted-cons i m _ order (starts_with ls) sorted = (order, sorted)

cons-Inserts :
    (i m l : Listener) (old new : List Listener)
    → InOrder i m
    → StartsWith m new
    → Inserts l old new
    → Inserts l (i ∷ old) (i ∷ new)
cons-Inserts i m l old new order starts (inserts before after split joined sorted) =
    inserts (i ∷ before) after (ap (λ ls. i ∷ ls) split) (ap (λ ls. i ∷ ls) joined)
      (IsSorted-cons i m new order starts sorted)

-- Inserting behind `i`, where `l` does not come before it.
insert_after-Inserts :
    (i : Listener) (ls : List Listener) (l : Listener)
    → InOrder i l
    → IsSorted (i ∷ ls)
    → Inserts l (i ∷ ls) (insert_after i ls l)
unfolding insert_after
insert_after-Inserts i [] l order sorted = inserts (i ∷ []) [] refl refl (order, tt)
insert_after-Inserts i (m ∷ ls) l order sorted = elim (Bool-cases (is_before l m)) [
  | inl e ↦
      subst (Inserts l (i ∷ m ∷ ls)) (sym (insert_yes i m ls l e))
        (inserts (i ∷ []) (m ∷ ls) refl refl (order, (before_InOrder l m e, sorted.1)))
  | inr e ↦ subst (Inserts l (i ∷ m ∷ ls)) (sym (insert_no i m ls l e)) (
      cons-Inserts i m l (m ∷ ls) (insert_after m ls l) sorted.0 (insert_after-StartsWith m ls l)
        (insert_after-Inserts m ls l (behind_InOrder l m e) sorted.1))
]

insert_listener-Inserts :
    (ls : List Listener) (l : Listener) → IsSorted ls → Inserts l ls (insert_listener ls l)
insert_listener-Inserts [] l sorted = inserts [] [] refl refl tt
insert_listener-Inserts (m ∷ ls) l sorted = by_first (is_before l m) refl
  where
    by_first :
        (b : Bool)
        → is_before l m ≡ b
        → Inserts l (m ∷ ls) (if b then l ∷ m ∷ ls else insert_after m ls l)
    by_first true e = inserts [] (m ∷ ls) refl refl (before_InOrder l m e, sorted)
    by_first false e = insert_after-Inserts m ls l (behind_InOrder l m e) sorted

-- `add_listener` to a list in the order of the addresses, where the new listener has an address:
-- the `assert`s hold, the list stays in order, and it is the old one with the new listener put in,
-- whose reference count has gone up by 1.
pub add_listener-Inserts :
    (listeners : List Listener) (listener : Listener)
    → IsSorted listeners
    → has_address listener.address ≡ true
    → (result : List Listener) × (add_listener listeners listener ≡ some result)
      × Inserts (listener_ref_get listener) listeners result
add_listener-Inserts ls l sorted e = (
  insert_listener ls (listener_ref_get l),
  rw e refl,
  insert_listener-Inserts ls (listener_ref_get l) sorted,
)
