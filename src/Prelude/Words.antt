-- ===== src/Prelude/Words.antt =====
-- Lines of numbers and words: `s.split()`, `s.rstrip(':')`, and what they make of a line that is put
-- together from words.
use Prim.Native.Nat.{ℕ, zero, suc}
use Prim.Native.Char.{Char, code}
use Prim.Native.String.{String, ◌++◌ as append}
use mathlib.Core.Path.{◌≡◌, refl, ap, ◌∙◌}
use mathlib.Core.Bool.{Bool, true, false, not, ◌&&◌}
use mathlib.Core.List.{List, [], ◌∷◌}
use native.Mathlib.Omega.{arith}
use text.Mathlib.TextLemmas.{cons-append, nil-append}
use chat_app_csd.Prelude.Tests.{if◌then◌else◌, nat_eq}
use chat_app_csd.Prelude.Texts.{is_space, is_empty, str_nat}
use chat_app_csd.Prelude.Decimal.{Digits, digit_not_space, str_nat-Digits, is_empty-str_nat}

-- Whether the text goes on with a word.
unfoldable pub begins_word : String → Bool
unfolding is_space
begins_word String.[] = false
begins_word (String.◌∷◌ c s) = not (is_space (code c))

abbrev pub cons_head : Char → List String → List String
cons_head c [] = String.◌∷◌ c "" ∷ []
cons_head c (w ∷ ws) = String.◌∷◌ c w ∷ ws

-- `s.split()`
unfoldable pub split : String → List String
unfolding is_space begins_word
split String.[] = []
split (String.◌∷◌ c s) =
    let rest = split s in
    if is_space (code c)
    then rest
    else if begins_word s
    then cons_head c rest
    else String.◌∷◌ c "" ∷ rest

-- `s.rstrip(':')`
pub rstrip_colon : String → String
rstrip_colon String.[] = ""
rstrip_colon (String.◌∷◌ c s) =
    let rest = rstrip_colon s in
    if is_empty rest && nat_eq (code c) 58 then "" else String.◌∷◌ c rest

-- No white space.
abbrev pub IsWord : String → Type 0
IsWord String.[] = Unit
IsWord (String.◌∷◌ c s) = (is_space (code c) ≡ false) × IsWord s

-- No colon.
abbrev pub HasNoColon : String → Type 0
HasNoColon String.[] = Unit
HasNoColon (String.◌∷◌ c s) = (nat_eq (code c) 58 ≡ false) × HasNoColon s

split-next :
    (c : Char) (s : String)
    → is_space (code c) ≡ false
    → begins_word s ≡ true
    → split (String.◌∷◌ c s) ≡ cons_head c (split s)
unfolding split
split-next c s h b = rw (h, b) refl

begins_word-append :
    (d : Char) (w s : String)
    → is_space (code d) ≡ false
    → begins_word (append (String.◌∷◌ d w) s) ≡ true
unfolding begins_word
begins_word-append d w s h = rw (cons-append d w s) (rw h refl)

-- A word in front of what does not go on with it.
pub split-word :
    (w s : String)
    → IsWord w
    → is_empty w ≡ false
    → begins_word s ≡ false
    → split (append w s) ≡ w ∷ split s
unfolding split
split-word String.[] s h e b = cc e
split-word (String.◌∷◌ c String.[]) s h e b =
    rw (cons-append c "" s, nil-append s) (rw (h.0, b) refl)
split-word (String.◌∷◌ c (String.◌∷◌ d w)) s h e b =
    ap split (cons-append c (String.◌∷◌ d w) s)
    ∙ split-next c (append (String.◌∷◌ d w) s) h.0 (begins_word-append d w s h.1.0)
    ∙ ap (cons_head c) (split-word (String.◌∷◌ d w) s h.1 refl b)

pub IsWord-append : (w s : String) → IsWord w → IsWord s → IsWord (append w s)
IsWord-append String.[] s hw hs = rw (nil-append s) hs
IsWord-append (String.◌∷◌ c w) s hw hs = rw (cons-append c w s) (hw.0, IsWord-append w s hw.1 hs)

pub is_empty-append : (w s : String) → is_empty s ≡ false → is_empty (append w s) ≡ false
is_empty-append String.[] s h = rw (nil-append s) h
is_empty-append (String.◌∷◌ c w) s h = rw (cons-append c w s) refl

pub rstrip_colon-name : (s : String) → HasNoColon s → rstrip_colon (append s ":") ≡ s
unfolding rstrip_colon
rstrip_colon-name String.[] h = refl
rstrip_colon-name (String.◌∷◌ c s) h =
    rw (cons-append c s ":") (rw (rstrip_colon-name s h.1) (rw h.0 (ground arith)))

-- That many spaces.
abbrev pub pad : ℕ → String → String
pad zero s = s
pad (suc n) s = String.◌∷◌ " " (pad n s)

pub split-pad : (n : ℕ) (s : String) → split (pad n s) ≡ split s
unfolding split begins_word
split-pad zero s = refl
split-pad (suc n) s = split-pad n s

pub Digits-IsWord : (s : String) → Digits s → IsWord s
Digits-IsWord String.[] h = tt
Digits-IsWord (String.◌∷◌ c s) h = (digit_not_space (code c) h.0 h.1, Digits-IsWord s h.2)

-- A numeral in front of what does not go on with it.
pub split-numeral :
    (n : ℕ) (s : String)
    → begins_word s ≡ false
    → split (append (str_nat n) s) ≡ str_nat n ∷ split s
split-numeral n s b =
    split-word (str_nat n) s (Digits-IsWord (str_nat n) (str_nat-Digits n)) (is_empty-str_nat n) b

split_tests :
    (split " a  bc\n" ≡ "a" ∷ "bc" ∷ []) × (split "" ≡ []) × (rstrip_colon "a:b::" ≡ "a:b")
unfolding split rstrip_colon
split_tests = (refl, refl, refl)
