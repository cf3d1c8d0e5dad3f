-- ===== src/App/Metrics/Memory.antt =====
-- The memory figure that `_get_mem_percent` makes, and the lines of /proc/meminfo that it reads.
use chat_app_csd.Prelude.{
  ℕ, suc, ◌-◌, ◌*◌, ◌≤◌, ◌<◌, String, ◌≡◌, refl, ap, ◌∙◌, ◌⊎◌, inl, inr, Bool, true, false, Option,
  none, some, List, [], ◌∷◌, map, arith, All, pos, IsWord, begins_word, pad, split, sub-pos,
  HasNoColon, int_of_text-str_nat, str_nat, rstrip_colon-name, split-word, IsWord-append, is_space,
  is_empty-append, split-pad, split-numeral,
}
use Prim.Native.String.{◌++◌ as append}
use chat_app_csd.App.Metrics.Numbers.{Floats, IsPercent, exact, round-IsWithin, literal-IsWithin}
use chat_app_csd.App.Metrics.{Info, info_get, info_line, meminfo, used_percent, get_mem_percent}

-- A line of /proc/meminfo: a name, spaces, an amount, and for most lines a unit.
pub record MemLine : Type 0 where
  pub name : String
  pub spaces : ℕ
  pub amount : ℕ
  pub in_kb : Bool

abbrev pub unit : Bool → String
unit true = " kB\n"
unit false = "\n"

abbrev pub print : MemLine → String
print l = append (append l.name ":") (pad (suc l.spaces) (append (str_nat l.amount) (unit l.in_kb)))

-- A name without white space and without a colon.
abbrev pub IsNamed : MemLine → Type 0
IsNamed l = IsWord l.name × HasNoColon l.name

-- The dict with the lines put into it, one after the other.
abbrev pub listed : List MemLine → Info → Info
listed [] info = info
listed (l ∷ lines) info = listed lines ((l.name, pos l.amount) ∷ info)

begins_word-pad : (n : ℕ) (s : String) → begins_word (pad (suc n) s) ≡ false
unfolding begins_word
begins_word-pad n s = refl

begins_word-unit : (b : Bool) → begins_word (unit b) ≡ false
unfolding begins_word
begins_word-unit true = refl
begins_word-unit false = refl

split-print :
    (l : MemLine)
    → IsNamed l
    → split (print l) ≡ append l.name ":" ∷ str_nat l.amount ∷ split (unit l.in_kb)
split-print l h =
    let rest = append (str_nat l.amount) (unit l.in_kb) in
    split-word (append l.name ":") (pad (suc l.spaces) rest)
      (IsWord-append l.name ":" h.0 ((unfold is_space in refl), tt))
      (is_empty-append l.name ":" refl) (begins_word-pad l.spaces rest)
    ∙ ap (◌∷◌ (append l.name ":")) (
        split-pad (suc l.spaces) rest
        ∙ split-numeral l.amount (unit l.in_kb) (begins_word-unit l.in_kb))

info_line-print :
    (l : MemLine) (info : Info)
    → IsNamed l
    → info_line (split (print l)) info ≡ some ((l.name, pos l.amount) ∷ info)
unfolding info_line
info_line-print l info h =
    rw (split-print l h)
      (rw (int_of_text-str_nat l.amount) (rw (rstrip_colon-name l.name h.1) refl))

meminfo-listed :
    (lines : List MemLine) (info : Info)
    → All IsNamed lines
    → meminfo (map print lines) info ≡ some (listed lines info)
unfolding meminfo
meminfo-listed [] info h = refl
meminfo-listed (l ∷ lines) info h =
    rw (info_line-print l info h.0, meminfo)
      (meminfo-listed lines ((l.name, pos l.amount) ∷ info) h.1)

-- Reading back lines of /proc/meminfo, whatever the widths of their columns and with or without a
-- unit, gives the dict of their names and amounts.
pub meminfo-print :
    (lines : List MemLine)
    → All IsNamed lines
    → meminfo (map print lines) [] ≡ some (listed lines [])
meminfo-print lines h = meminfo-listed lines [] h

module _ (f : Floats) where
  -- The amounts that the kernel reports of its memory, in kB.
  abbrev pub IsMemory : Info → Type 0
  IsMemory info =
      (total : ℕ) × (avail : ℕ) × (info_get "MemTotal" (pos 1) info ≡ pos total)
      × (info_get "MemAvailable" (pos total) info ≡ pos avail)
      × (0 < total)
      × (avail ≤ total)
      × (100 * total ≤ exact)

  -- What the function is given: a percentage of psutil, or a file that it cannot read or not
  -- understand, or one with amounts.
  abbrev pub IsReading : Option f.Number → Option (List String) → Type 0
  IsReading (some percent) lines = IsPercent f percent
  IsReading none none = Unit
  IsReading none (some lines) =
      (meminfo lines [] ≡ none) ⊎ ((info : Info) × (meminfo lines [] ≡ some info) × IsMemory info)

  pub record Used (total avail : ℕ) : Type 0 where
    pub percent : f.Number
    pub ran : used_percent f (pos total) (pos avail) ≡ some percent
    pub within : IsPercent f percent

  used : (total avail : ℕ) → 0 < total → avail ≤ total → 100 * total ≤ exact → Used total avail
  unfolding used_percent
  used total avail some_total le small =
      let (q, quotient) =
        f.div_literal (f.literal (100 * (total - avail))) total some_total (omega arith) in
      let within : IsPercent f q =
        f.div_le 100 (100 * (total - avail)) total q some_total (omega arith) small quotient in
      record {
        percent = f.round 1 q;
        ran = rw (sub-pos total avail le) (
            rw
              (f.of_int_literal (total - avail) (omega arith), f.of_int_literal total (omega arith))
              (rw (f.mul_literal 100 (total - avail) (omega arith)) (rw quotient refl)));
        within = round-IsWithin f 1 100 q (omega arith) within;
      }

  -- The memory figure is at least 0.0 and at most 100.0: with psutil if that says so, without it
  -- when /proc/meminfo cannot be read or has a line that is no number, and when it reports at least
  -- 1 kB in all, of which no more is available.
  pub get_mem_percent-IsPercent :
      (psutil : Option f.Number) (lines : Option (List String))
      → IsReading psutil lines
      → IsPercent f (get_mem_percent f psutil lines)
  unfolding get_mem_percent
  get_mem_percent-IsPercent (some percent) lines h = h
  get_mem_percent-IsPercent none none h = literal-IsWithin f 0 100 (omega arith)
  get_mem_percent-IsPercent none (some lines) (inl failed) =
      rw failed (literal-IsWithin f 0 100 (omega arith))
  get_mem_percent-IsPercent none (some lines)
        (inr (info, read, (total, avail, ht, ha, more, le, small))) =
      let u = used total avail more le small in rw read (rw ht (rw ha (rw u.ran u.within)))
