-- ===== src/Lookup/Pattern/Expansion.antt =====
-- What a pattern of src/backend.c stands for, apart from `apply_pattern`.
use sniproxy.Prelude.{
  ℕ, zero, suc, ◌+◌, ◌-◌, ◌≤◌, ◌<◌, ◌≡◌, ◌≢◌, ◌↔◌, ◌⊎◌, refl, sym, ap, subst, ◌∙◌, true, false,
  Bool-cases, [], ◌∷◌, ◌++◌, Option, none, some, Bytes, length, length-append, append_assoc,
  append-nil, ◌==◌, min, inl, inr, arith, lt→ltb,
}
use sniproxy.Lookup.Pattern.{is_group_digit, put, end_pattern, copied, pattern_loop, apply_pattern}

-- A dollar sign in front of a digit stands for a group, in front of another byte for that byte; all
-- other bytes, and a dollar sign at the end, stand for themselves.
pub data Expands (group : ℕ → Option Bytes) : Bytes → Bytes → Type 0 where
  expands_end : Expands group [] []
  expands_last : (c : ℕ) → Expands group (c ∷ []) (c ∷ [])
  expands_byte :
      (c d : ℕ) {src s : Bytes}
      → (c == 36) ≡ false
      → Expands group (d ∷ src) s
      → Expands group (c ∷ d ∷ src) (c ∷ s)
  expands_escaped :
      (c d : ℕ) {src s : Bytes}
      → (c == 36) ≡ true
      → is_group_digit d ≡ false
      → Expands group src s
      → Expands group (c ∷ d ∷ src) (d ∷ s)
  expands_group :
      (c d : ℕ) {src g s : Bytes}
      → (c == 36) ≡ true
      → is_group_digit d ≡ true
      → group (d - 48) ≡ some g
      → Expands group src s
      → Expands group (c ∷ d ∷ src) (g ++ s)

-- What is documented of `pcre_copy_substring`: it copies the group where the group took part in the
-- match and fits with the NUL behind it.
pub record CopiesGroups (group : ℕ → Option Bytes) (copy : ℕ → ℕ → Option Bytes) : Type 0 where
  pub fits : (n size : ℕ) (g : Bytes) → group n ≡ some g → length g < size → copy n size ≡ some g
  pub is_group :
      (n size : ℕ) (g : Bytes) → copy n size ≡ some g → (group n ≡ some g) × (length g < size)

module _ (copy : ℕ → ℕ → Option Bytes) (result_len : ℕ) where
  put_inside :
      (out : Bytes) (rest : Option (Option Bytes))
      → length out < result_len
      → put copy result_len out rest ≡ rest
  put_inside out rest h = rw (lt→ltb _ _ h) refl

  loop_byte :
      (c d : ℕ) (src out : Bytes) (room : ℕ)
      → (c == 36) ≡ false
      → length out < result_len
      → pattern_loop copy result_len (c ∷ d ∷ src) out (suc room)
        ≡ pattern_loop copy result_len (d ∷ src) (out ++ (c ∷ [])) room
  unfolding pattern_loop
  loop_byte c d src out room e h = rw (pattern_loop, e) (put_inside out _ h)

  loop_escaped :
      (c d : ℕ) (src out : Bytes) (room : ℕ)
      → (c == 36) ≡ true
      → is_group_digit d ≡ false
      → length out < result_len
      → pattern_loop copy result_len (c ∷ d ∷ src) out (suc room)
        ≡ pattern_loop copy result_len src (out ++ (d ∷ [])) room
  unfolding pattern_loop
  loop_escaped c d src out room dollar e h = rw (pattern_loop, dollar, e) (put_inside out _ h)

  loop_group :
      (c d : ℕ) (src out : Bytes) (room : ℕ)
      → (c == 36) ≡ true
      → is_group_digit d ≡ true
      → length out < result_len
      → pattern_loop copy result_len (c ∷ d ∷ src) out (suc room)
        ≡ copied copy result_len out
            (suc room)
            (pattern_loop copy result_len src)
            (copy (d - 48) (suc room))
  unfolding pattern_loop
  loop_group c d src out room dollar e h = rw (pattern_loop, dollar, e) (put_inside out _ h)

  loop_last :
      (c : ℕ) (out : Bytes) (room : ℕ)
      → length out < result_len
      → pattern_loop copy result_len (c ∷ []) out (suc room)
        ≡ end_pattern copy result_len (out ++ (c ∷ [])) room
  unfolding pattern_loop
  loop_last c out room h = put_inside out _ h

  module _ (group : ℕ → Option Bytes) (documented : CopiesGroups group copy) where
    -- What the loop makes behind `out`: nothing, or an expansion that fits with its NUL.
    data Makes (src out : Bytes) (room : ℕ) : Option (Option Bytes) → Type 0 where
      makes_none : Makes src out room (some none)
      makes :
          (s t : Bytes)
          → t ≡ out ++ s
          → Expands group src s
          → length s < room
          → Makes src out room (some (some t))

    end-Makes :
        (out : Bytes) (room : ℕ)
        → length out + room ≤ result_len
        → Makes [] out room (end_pattern copy result_len out room)
    end-Makes out zero h = makes_none
    end-Makes out (suc room) h =
        subst (Makes [] out (suc room)) (sym (put_inside out _ (omega (arith, h))))
          (makes [] out (sym (append-nil out)) expands_end (omega arith))

    -- A part of the expansion in front.
    Makes-prepend :
        (part : Bytes) {src src' out : Bytes} {room room' : ℕ} {o : Option (Option Bytes)}
        → ((s : Bytes) → Expands group src' s → Expands group src (part ++ s))
        → length part + room' ≤ room
        → Makes src' (out ++ part) room' o
        → Makes src out room o
    Makes-prepend part f le makes_none = makes_none
    Makes-prepend part {out = out} f le (makes s t e x short) =
        makes (part ++ s) t (e ∙ append_assoc out part s) (f s x)
          (omega (arith, le, short, length-append part s))

    one : (out : Bytes) (c : ℕ) → length (out ++ (c ∷ [])) ≡ suc (length out)
    one out c = omega (arith, length-append out (c ∷ []))

    copied-Makes :
        (c d : ℕ) (src out : Bytes) (room : ℕ) (o : Option Bytes)
        → copy (d - 48) (suc room) ≡ o
        → (c == 36) ≡ true
        → is_group_digit d ≡ true
        → length out + suc room ≤ result_len
        → ((out : Bytes) (room : ℕ)
            → length out + room ≤ result_len
            → Makes src out room (pattern_loop copy result_len src out room))
        → Makes
            (c ∷ d ∷ src)
            out
            (suc room)
            (copied copy result_len out (suc room) (pattern_loop copy result_len src) o)
    copied-Makes c d src out room none e dollar digit h ih = makes_none
    copied-Makes c d src out room (some g) e dollar digit h ih =
        let is_g = documented.is_group (d - 48) (suc room) g e in
        Makes-prepend g (λ s x. expands_group c d dollar digit is_g.0 x) (omega (arith, is_g.1))
          (ih (out ++ g) (suc room - length g) (omega (arith, h, is_g.1, length-append out g)))

    loop-Makes :
        (src out : Bytes) (room : ℕ)
        → length out + room ≤ result_len
        → Makes src out room (pattern_loop copy result_len src out room)
    unfolding pattern_loop
    loop-Makes [] out room h = end-Makes out room h
    loop-Makes (c ∷ []) out zero h = makes_none
    loop-Makes (c ∷ []) out (suc room) h =
        subst (Makes (c ∷ []) out (suc room)) (sym (loop_last c out room (omega (arith, h)))) (
          Makes-prepend (c ∷ []) last (omega arith)
            (end-Makes (out ++ (c ∷ [])) room (omega (arith, h, one out c))))
      where
        last : (s : Bytes) → Expands group [] s → Expands group (c ∷ []) (c ∷ s)
        last _ expands_end = expands_last c
    loop-Makes (c ∷ d ∷ src) out zero h = makes_none
    loop-Makes (c ∷ d ∷ src) out (suc room) h =
        by_kind (Bool-cases (c == 36)) (Bool-cases (is_group_digit d)) (loop-Makes src)
          (loop-Makes (d ∷ src))
      where
        Here : Bytes → Type 0
        Here tail =
            (out : Bytes) (room : ℕ)
            → length out + room ≤ result_len
            → Makes tail out room (pattern_loop copy result_len tail out room)

        inside : length out < result_len
        inside = omega (arith, h)

        by_kind :
            ((c == 36) ≡ true) ⊎ ((c == 36) ≡ false)
            → (is_group_digit d ≡ true) ⊎ (is_group_digit d ≡ false)
            → Here src
            → Here (d ∷ src)
            → Makes
                (c ∷ d ∷ src)
                out
                (suc room)
                (pattern_loop copy result_len (c ∷ d ∷ src) out (suc room))
        by_kind (inr e) digit ih ih' =
            subst (Makes (c ∷ d ∷ src) out (suc room)) (sym (loop_byte c d src out room e inside)) (
              Makes-prepend (c ∷ []) (λ s x. expands_byte c d e x) (omega arith)
                (ih' (out ++ (c ∷ [])) room (omega (arith, h, one out c))))
        by_kind (inl e) (inr n) ih ih' =
            subst (Makes (c ∷ d ∷ src) out (suc room))
              (sym (loop_escaped c d src out room e n inside))
              (Makes-prepend (d ∷ []) (λ s x. expands_escaped c d e n x) (omega arith)
                (ih (out ++ (d ∷ [])) room (omega (arith, h, one out d))))
        by_kind (inl e) (inl y) ih ih' =
            subst (Makes (c ∷ d ∷ src) out (suc room))
              (sym (loop_group c d src out room e y inside))
              (copied-Makes c d src out room (copy (d - 48) (suc room)) refl e y h ih)

    -- An expansion that fits is made.
    loop-Expands :
        (src s out : Bytes) (room : ℕ)
        → Expands group src s
        → length s < room
        → length out + room ≤ result_len
        → pattern_loop copy result_len src out room ≡ some (some (out ++ s))
    unfolding pattern_loop
    loop-Expands src s out zero x short h = absurd (omega (arith, short))
    loop-Expands _ _ out (suc room) expands_end short h =
        put_inside out _ (omega (arith, h)) ∙ ap (λ t. some (some t)) (sym (append-nil out))
    loop-Expands _ _ out (suc zero) (expands_last c) short h = absurd (omega (arith, short))
    loop-Expands _ _ out (suc (suc room)) (expands_last c) short h =
        loop_last c out (suc room) (omega (arith, h))
        ∙ put_inside (out ++ (c ∷ [])) _ (omega (arith, h, one out c))
    loop-Expands _ _ out (suc room) (expands_byte c d {src} {s} e x) short h =
        loop_byte c d src out room e (omega (arith, h))
        ∙ loop-Expands (d ∷ src) s (out ++ (c ∷ [])) room x (omega (arith, short))
            (omega (arith, h, one out c))
        ∙ ap (λ t. some (some t)) (append_assoc out (c ∷ []) s)
    loop-Expands _ _ out (suc room) (expands_escaped c d {src} {s} e n x) short h =
        loop_escaped c d src out room e n (omega (arith, h))
        ∙ loop-Expands src s (out ++ (d ∷ [])) room x (omega (arith, short))
            (omega (arith, h, one out d))
        ∙ ap (λ t. some (some t)) (append_assoc out (d ∷ []) s)
    loop-Expands _ _ out (suc room) (expands_group c d {src} {g} {s} e y is_g x) short h =
        let fits : length g + length s < suc room = omega (arith, short, length-append g s) in
        loop_group c d src out room e y (omega (arith, h))
        ∙ ap (copied copy result_len out (suc room) (pattern_loop copy result_len src))
            (documented.fits (d - 48) (suc room) g is_g (omega (arith, fits)))
        ∙ loop-Expands src s (out ++ g) (suc room - length g) x (omega (arith, fits))
            (omega (arith, h, fits, length-append out g))
        ∙ ap (λ t. some (some t)) (append_assoc out g s)

    Makes-some :
        (src : Bytes) (room : ℕ) (s : Bytes) (o : Option (Option Bytes))
        → o ≡ some (some s)
        → Makes src [] room o
        → Expands group src s × (length s < room)
    Makes-some src room s _ e makes_none = absurd cc
    Makes-some src room s _ e (makes s' t split x short) =
        let same : s' ≡ s = sym split ∙ some_some e in
        (subst (Expands group src) same x, subst (λ l. length l < room) same short)
      where
        some_some : {x y : Bytes} → some (some x) ≡ some (some y) → x ≡ y
        some_some e = cc

    Makes-not_none :
        {src out : Bytes} {room : ℕ} {o : Option (Option Bytes)} → Makes src out room o → o ≢ none
    Makes-not_none makes_none = cc
    Makes-not_none (makes s t e x short) = cc

    -- `apply_pattern`, where `pcre_copy_substring` copies the groups that took part in the match
    -- and fit: it never writes outside of its memory, and it gives a string exactly where that is
    -- the pattern's expansion and is shorter than the memory, and than 1024 bytes.
    pub apply_pattern_lem :
        (pattern : Bytes)
        → (apply_pattern copy result_len pattern ≢ none)
          × ((s : Bytes)
              → (apply_pattern copy result_len pattern ≡ some (some s))
                ↔ (Expands group pattern s × (length s < min 1024 result_len)))
    apply_pattern_lem pattern =
        let room : ℕ = min 1024 result_len in
        let made = loop-Makes pattern [] room (omega arith) in
        (
          Makes-not_none made,
          λ s. (
            λ e. Makes-some pattern room s _ e made,
            λ x. loop-Expands pattern s [] room x.0 x.1 (omega arith),
          ),
        )
