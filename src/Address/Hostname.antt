-- ===== src/Address/Hostname.antt =====
-- What names `valid_hostname` of src/address.c accepts.
use sniproxy.Prelude.{
  ℕ, zero, suc, ◌+◌, ◌≤◌, ◌<◌, ◌-◌, ◌≡◌, ◌≢◌, ◌↔◌, ◌⊎◌, refl, sym, ap, subst, ◌∙◌, Bool, true,
  false, ◌||◌, Bool-cases, inl, inr, [], ◌∷◌, ◌++◌, some, Bytes, length, length-append, take, drop,
  take-append, take_all, get_or, ltb, leb, ◌&&◌, ◌==◌, arith,
}
use sniproxy.Address.{
  label_len, is_label_byte, all_label_bytes, valid_label, labels_loop, valid_hostname,
}
use sniproxy.Address.Order.{valid_hostname-ends}

-- No dot, whose code is 46, among these bytes.
abbrev pub NoDot : Bytes → Type 0
NoDot [] = Unit
NoDot (c ∷ cs) = ((c == 46) ≡ false) × NoDot cs

-- Letters, digits, hyphens and underscores.
pub data IsLabelByte (c : ℕ) : Type 0 where
  a_capital : 65 ≤ c → c ≤ 90 → IsLabelByte c
  a_small : 97 ≤ c → c ≤ 122 → IsLabelByte c
  a_digit : 48 ≤ c → c ≤ 57 → IsLabelByte c
  a_hyphen : c ≡ 45 → IsLabelByte c
  an_underscore : c ≡ 95 → IsLabelByte c

abbrev pub AreLabelBytes : Bytes → Type 0
AreLabelBytes [] = Unit
AreLabelBytes (c ∷ cs) = IsLabelByte c × AreLabelBytes cs

-- 1 to 63 of these bytes, with no hyphen at either end.
pub record IsLabel (l : Bytes) : Type 0 where
  pub some_byte : 1 ≤ length l
  pub at_most_63 : length l ≤ 63
  pub first : get_or l 0 0 ≢ 45
  pub last : get_or l (length l - 1) 0 ≢ 45
  pub bytes : AreLabelBytes l

-- Labels with dots in between, and perhaps one behind the last.
pub data Labels : Bytes → Type 0 where
  labels_end : Labels []
  labels_last : (l : Bytes) → NoDot l → IsLabel l → Labels l
  labels_more : (l rest : Bytes) → NoDot l → IsLabel l → Labels rest → Labels (l ++ (46 ∷ rest))

is_label_byte_lem : (c : ℕ) → (is_label_byte c ≡ true) ↔ IsLabelByte c
is_label_byte_lem c = (accepted, taken)
  where
    accepted : is_label_byte c ≡ true → IsLabelByte c
    accepted e = elim (Bool-cases (c == 45)) [
      | inl y ↦ a_hyphen (ground arith)
      | inr n1 ↦ elim (Bool-cases (leb 48 c && leb c 57)) [
        | inl y ↦ a_digit (ground arith) (ground arith)
        | inr n2 ↦ elim (Bool-cases (leb 65 c && leb c 90)) [
          | inl y ↦ a_capital (ground arith) (ground arith)
          | inr n3 ↦ elim (Bool-cases (c == 95)) [
            | inl y ↦ an_underscore (ground arith)
            | inr n4 ↦ a_small (ground arith) (ground arith)
          ]
        ]
      ]
    ]

    taken : IsLabelByte c → is_label_byte c ≡ true
    taken (a_capital lo hi) = ground arith
    taken (a_small lo hi) = ground arith
    taken (a_digit lo hi) = ground arith
    taken (a_hyphen is) = ground arith
    taken (an_underscore is) = ground arith

all_label_bytes_lem : (l : Bytes) → (all_label_bytes l ≡ true) ↔ AreLabelBytes l
all_label_bytes_lem [] = (λ e. tt, λ h. refl)
all_label_bytes_lem (c ∷ cs) =
    let (head_in, head_out) = is_label_byte_lem c in
    let (tail_in, tail_out) = all_label_bytes_lem cs in
    (
      λ e. (head_in (ground arith), tail_in (ground arith)),
      λ h. rw (head_out h.0, tail_out h.1) refl,
    )

valid_label_lem : (l : Bytes) → (valid_label l ≡ true) ↔ IsLabel l
valid_label_lem l = (
  λ e. record {
    some_byte = ground arith;
    at_most_63 = ground arith;
    first = ground arith;
    last = ground arith;
    bytes = (all_label_bytes_lem l).0 (ground arith);
  },
  λ h.
      let some_byte = h.some_byte in
      let at_most_63 = h.at_most_63 in
      let first = h.first in
      let last = h.last in let bytes = (all_label_bytes_lem l).1 h.bytes in ground arith,
)

label_len-dot : (c : ℕ) (cs : Bytes) → (c == 46) ≡ true → label_len (c ∷ cs) ≡ 0
unfolding label_len
label_len-dot c cs e = rw e refl

label_len-byte : (c : ℕ) (cs : Bytes) → (c == 46) ≡ false → label_len (c ∷ cs) ≡ suc (label_len cs)
unfolding label_len
label_len-byte c cs e = rw e refl

-- The first label of a string, and what is behind it.
data Cut (s : Bytes) : Type 0 where
  cut_last : NoDot s → label_len s ≡ length s → Cut s
  cut_more : (l rest : Bytes) → NoDot l → s ≡ l ++ (46 ∷ rest) → label_len s ≡ length l → Cut s

cut : (s : Bytes) → Cut s
unfolding label_len
cut [] = cut_last tt refl
cut (c ∷ cs) = by_byte (Bool-cases (c == 46)) (cut cs)
  where
    by_byte : ((c == 46) ≡ true) ⊎ ((c == 46) ≡ false) → Cut cs → Cut (c ∷ cs)
    by_byte (inl dot) rest =
        let e : c ≡ 46 = ground arith in
        cut_more [] cs tt (ap (λ d. d ∷ cs) e) (label_len-dot c cs dot)
    by_byte (inr other) (cut_last nodot len) =
        cut_last (other, nodot) (label_len-byte c cs other ∙ ap suc len)
    by_byte (inr other) (cut_more l rest nodot split len) =
        cut_more (c ∷ l) rest (other, nodot) (ap (λ t. c ∷ t) split)
          (label_len-byte c cs other ∙ ap suc len)

label_len-append : (l rest : Bytes) → NoDot l → label_len (l ++ (46 ∷ rest)) ≡ length l
unfolding label_len
label_len-append [] rest h = label_len-dot 46 rest refl
label_len-append (c ∷ l) rest h =
    label_len-byte c (l ++ (46 ∷ rest)) h.0 ∙ ap suc (label_len-append l rest h.1)

label_len-all : (l : Bytes) → NoDot l → label_len l ≡ length l
unfolding label_len
label_len-all [] h = refl
label_len-all (c ∷ l) h = label_len-byte c l h.0 ∙ ap suc (label_len-all l h.1)

-- One round of the loop, on a string that is not empty.
loop_good :
    (fuel : ℕ) (s : Bytes)
    → 0 < length s
    → valid_label (take (label_len s) s) ≡ true
    → labels_loop (suc fuel) s ≡ labels_loop fuel (drop (label_len s + 1) s)
unfolding labels_loop
loop_good fuel [] h e = absurd (omega (arith, h))
loop_good fuel (c ∷ cs) h e = rw e refl

loop_bad :
    (fuel : ℕ) (s : Bytes)
    → 0 < length s
    → valid_label (take (label_len s) s) ≡ false
    → labels_loop (suc fuel) s ≡ some false
unfolding labels_loop
loop_bad fuel [] h e = absurd (omega (arith, h))
loop_bad fuel (c ∷ cs) h e = rw e refl

drop_all : (n : ℕ) (s : Bytes) → length s ≤ n → drop n s ≡ []
drop_all zero [] h = refl
drop_all zero (c ∷ cs) h = absurd (omega (arith, h))
drop_all (suc n) [] h = refl
drop_all (suc n) (c ∷ cs) h = drop_all n cs (omega (arith, h))

drop_more : (l : Bytes) (c : ℕ) (rest : Bytes) → drop (length l + 1) (l ++ (c ∷ rest)) ≡ rest
drop_more [] c rest = refl
drop_more (x ∷ l) c rest =
    let e : suc (length l) + 1 ≡ suc (length l + 1) = omega arith in
    ap (λ n. drop n (x ∷ (l ++ (c ∷ rest)))) e ∙ drop_more l c rest

loop_end : (fuel : ℕ) → labels_loop fuel [] ≡ some true
unfolding labels_loop
loop_end zero = refl
loop_end (suc fuel) = refl

loop-Labels : (fuel : ℕ) (s : Bytes) → length s ≤ fuel → labels_loop fuel s ≡ some true → Labels s
loop-Labels fuel [] h e = labels_end
loop-Labels zero (c ∷ cs) h e = absurd (omega (arith, h))
loop-Labels (suc fuel) (c ∷ cs) h e =
    by_label (Bool-cases (valid_label (take (label_len (c ∷ cs)) (c ∷ cs)))) (cut (c ∷ cs))
      (λ t short. loop-Labels fuel t short)
  where
    s : Bytes
    s = c ∷ cs

    by_label :
        (valid_label (take (label_len s) s) ≡ true) ⊎ (valid_label (take (label_len s) s) ≡ false)
        → Cut s
        → ((t : Bytes) → length t ≤ fuel → labels_loop fuel t ≡ some true → Labels t)
        → Labels s
    by_label (inr bad) k ih =
        let no : some false ≡ some true = sym (loop_bad fuel s (omega arith) bad) ∙ e in absurd cc
    by_label (inl good) (cut_last nodot len) ih = labels_last s nodot (
        (valid_label_lem s).0 (
          sym (ap valid_label (ap (λ n. take n s) len ∙ take_all (length s) s (omega arith)))
          ∙ good))
    by_label (inl good) (cut_more l rest nodot split len) ih =
        let first : take (label_len s) s ≡ l =
          ap (λ n. take n s) len ∙ ap (take (length l)) split ∙ take-append l (46 ∷ rest) in
        let behind : drop (label_len s + 1) s ≡ rest =
          ap (λ n. drop (n + 1) s) len ∙ ap (drop (length l + 1)) split ∙ drop_more l 46 rest in
        subst Labels (sym split) (
          labels_more l rest nodot ((valid_label_lem l).0 (sym (ap valid_label first) ∙ good)) (
            ih rest (omega (arith, h, ap length split, length-append l (46 ∷ rest)))
              (sym (ap (labels_loop fuel) behind) ∙ sym (loop_good fuel s (omega arith) good) ∙ e)))

Labels-loop : (fuel : ℕ) (s : Bytes) → Labels s → length s ≤ fuel → labels_loop fuel s ≡ some true
Labels-loop fuel _ labels_end h = loop_end fuel
Labels-loop zero _ (labels_last l nodot good) h = absurd (omega (arith, h, good.some_byte))
Labels-loop (suc fuel) _ (labels_last l nodot good) h =
    let len = label_len-all l nodot in
    loop_good fuel l good.some_byte (
      ap valid_label (ap (λ n. take n l) len ∙ take_all (length l) l (omega arith))
      ∙ (valid_label_lem l).1 good)
    ∙ ap (labels_loop fuel) (ap (λ n. drop (n + 1) l) len ∙ drop_all (length l + 1) l (omega arith))
    ∙ loop_end fuel
Labels-loop zero _ (labels_more l rest nodot good more) h =
    absurd (omega (arith, h, length-append l (46 ∷ rest)))
Labels-loop (suc fuel) _ (labels_more l rest nodot good more) h =
    let s = l ++ (46 ∷ rest) in
    let len = label_len-append l rest nodot in
    loop_good fuel s (omega (arith, length-append l (46 ∷ rest))) (
      ap valid_label (ap (λ n. take n s) len ∙ take-append l (46 ∷ rest))
      ∙ (valid_label_lem l).1 good)
    ∙ ap (labels_loop fuel) (ap (λ n. drop (n + 1) s) len ∙ drop_more l 46 rest)
    ∙ Labels-loop fuel rest more (omega (arith, h, length-append l (46 ∷ rest)))

-- A name of 1 to 255 bytes that does not begin with a dot, made of labels.
pub record IsHostname (s : Bytes) : Type 0 where
  pub some_bytes : 1 ≤ length s
  pub at_most : length s ≤ 255
  pub no_first_dot : (get_or s 0 0 == 46) ≡ false
  pub labels : Labels s

accepts-IsHostname : (s : Bytes) → valid_hostname (some s) ≡ some true → IsHostname s
unfolding valid_hostname
accepts-IsHostname s e =
    by_len (Bool-cases (ltb (length s) 1 || ltb 255 (length s))) (Bool-cases (get_or s 0 0 == 46))
  where
    by_len :
        ((ltb (length s) 1 || ltb 255 (length s)) ≡ true)
          ⊎ ((ltb (length s) 1 || ltb 255 (length s)) ≡ false)
        → ((get_or s 0 0 == 46) ≡ true) ⊎ ((get_or s 0 0 == 46) ≡ false)
        → IsHostname s
    by_len (inl bad) dot = let no : some false ≡ some true = simp bad at e in absurd cc
    by_len (inr len) (inl dot) = let no : some false ≡ some true = simp (len, dot) at e in absurd cc
    by_len (inr len) (inr dot) = record {
      some_bytes = ground arith;
      at_most = ground arith;
      no_first_dot = dot;
      labels = loop-Labels (length s) s (omega arith) (simp (len, dot) at e);
    }

IsHostname-accepts : (s : Bytes) → IsHostname s → valid_hostname (some s) ≡ some true
unfolding valid_hostname
IsHostname-accepts s h =
    let low = h.some_bytes in
    let high = h.at_most in
    let len : (ltb (length s) 1 || ltb 255 (length s)) ≡ false = ground arith in
    let loop = Labels-loop (length s) s h.labels (omega arith) in rw (len, h.no_first_dot) loop

-- `valid_hostname` returns for every string, and accepts exactly the strings of 1 to 255 bytes
-- that do not begin with a dot and are made of labels with dots in between, and perhaps one behind
-- the last. A label is 1 to 63 letters, digits, hyphens and underscores, with no hyphen at either
-- end.
pub valid_hostname-IsHostname :
    (s : Bytes)
    → ((answer : Bool) × (valid_hostname (some s) ≡ some answer))
      × ((valid_hostname (some s) ≡ some true) ↔ IsHostname s)
valid_hostname-IsHostname s =
    (valid_hostname-ends (some s), (accepts-IsHostname s, IsHostname-accepts s))
