-- ===== src/Start/Lines.antt =====
-- The lines that the start of the kernel puts, `physical_allocator_init` of
-- kernel/memory/physical_allocator.cpp.
use tetra_os.Base.{
  ℕ, ◌+◌, ◌^◌, ◌<◌, ◌≡◌, refl, ap, ◌∙◌, false, bit_and, Option, some, List, [], ◌∷◌, ◌++◌,
  append_nil, append_assoc, map, ◌==◌, arith,
}
use tetra_os.Memory.{u64}
use tetra_os.Frames.{Linker, num_frames, allign_address}
use tetra_os.Print.{number, before, hex_char, decimal_char, print_hex, print_decimal, vprintf}
use tetra_os.Print.Digits.{value, AllBelow, print_hex_lem, print_decimal_lem}
use tetra_os.Print.Text.{HasNoPercent, has_no_percent-HasNoPercent, vprintf-before}
use tetra_os.Log.{LogLevel, system, prefix, number_of, log_runs}
use tetra_os.Syscall.{Machine, put_chars, and_then}
use tetra_os.Start.{
  Sections, log_levels, put_message, put_range, put_layout, text_name, rodata_name, data_name,
  bss_name, heap_name, amount_name, location_name, range_format,
}

-- A line of the log.
abbrev pub log_line : LogLevel → List ℕ → List ℕ
log_line level text = prefix level ++ (32 ∷ (text ++ (10 ∷ [])))

-- Digits that stand for a number.
pub record IsHex (n : ℕ) (digits : List ℕ) : Type 0 where
  pub is : value 16 0 digits ≡ n
  pub below : AllBelow 16 digits

pub record IsDecimal (n : ℕ) (digits : List ℕ) : Type 0 where
  pub is : value 10 0 digits ≡ n
  pub below : AllBelow 10 digits

-- "0x", the first number, " -> 0x" and the second one, behind a name.
abbrev range_line : List ℕ → List ℕ → List ℕ → List ℕ
range_line name xs ys =
    log_line system
      (name ++ (48 ∷ 120 ∷ (map hex_char xs ++ (32 ∷ 45 ∷ 62 ∷ 32 ∷ 48 ∷ 120 ∷ map hex_char ys))))

pub data IsRange (name : List ℕ) (start end : ℕ) : List ℕ → Type 0 where
  range :
      (xs ys : List ℕ)
      → IsHex start xs
      → IsHex end ys
      → IsRange name start end (range_line name xs ys)

pub data IsAmount (n : ℕ) : List ℕ → Type 0 where
  amount :
      (xs : List ℕ)
      → IsDecimal n xs
      → IsAmount n (log_line system (amount_name ++ map decimal_char xs))

pub data IsLocation (n : ℕ) : List ℕ → Type 0 where
  location :
      (xs : List ℕ) → IsHex n xs → IsLocation n (log_line system (location_name ++ map hex_char xs))

message_runs :
    (fmt : List ℕ) (args : _) (out : List ℕ) (s : Machine)
    → s.log_level ≡ log_levels
    → vprintf fmt args ≡ some out
    → put_message system fmt args s ≡ some (put_chars (log_line system out) s)
message_runs fmt args out s level e =
    let set : (bit_and s.log_level (number_of system) == 0) ≡ false = rw level refl in
    rw (log_runs s.log_level system fmt args out set e) refl

range_text :
    (a b : ℕ) (x y : List ℕ)
    → print_hex a ≡ some x
    → print_hex b ≡ some y
    → vprintf range_format (number a ∷ number b ∷ [])
      ≡ some (48 ∷ 120 ∷ (x ++ (32 ∷ 45 ∷ 62 ∷ 32 ∷ 48 ∷ 120 ∷ y)))
unfolding vprintf
range_text a b x y e e' =
    rw (e, e')
      (ap (λ (r : List ℕ). some (48 ∷ 120 ∷ (x ++ (32 ∷ 45 ∷ 62 ∷ 32 ∷ 48 ∷ 120 ∷ r))))
        (append_nil y))

range_lem :
    (name : List ℕ) (a b : ℕ) (s : Machine)
    → HasNoPercent name
    → a < 2 ^ 64
    → b < 2 ^ 64
    → s.log_level ≡ log_levels
    → (line : List ℕ) × IsRange name a b line × (put_range name a b s ≡ some (put_chars line s))
range_lem name a b s plain low low' level =
    let (xs, runs, is, below) = print_hex_lem a low in
    let (ys, runs', is', below') = print_hex_lem b low' in
    (
      range_line name xs ys,
      range xs ys (record { is = is; below = below }) (record { is = is'; below = below' }),
      message_runs (name ++ range_format) (number a ∷ number b ∷ [])
          (name
            ++ (48 ∷ 120 ∷ (map hex_char xs ++ (32 ∷ 45 ∷ 62 ∷ 32 ∷ 48 ∷ 120 ∷ map hex_char ys))))
          s level
          (vprintf-before name range_format (number a ∷ number b ∷ []) plain
            ∙ ap (before (some name))
                (range_text a b (map hex_char xs) (map hex_char ys) runs runs')),
    )

decimal_text :
    (i : ℕ) (out : List ℕ)
    → print_decimal i ≡ some out
    → vprintf (37 ∷ 105 ∷ []) (number i ∷ []) ≡ some out
unfolding vprintf
decimal_text i out e = rw e (ap some (append_nil out))

amount_lem :
    (n : ℕ) (s : Machine)
    → n < 2 ^ 31
    → s.log_level ≡ log_levels
    → (line : List ℕ) × IsAmount n line
      × (put_message system (amount_name ++ (37 ∷ 105 ∷ [])) (number n ∷ []) s
          ≡ some (put_chars line s))
amount_lem n s low level =
    let (xs, runs, is, below) = print_decimal_lem n low in
    (
      log_line system (amount_name ++ map decimal_char xs),
      amount xs (record { is = is; below = below }),
      message_runs (amount_name ++ (37 ∷ 105 ∷ [])) (number n ∷ [])
          (amount_name ++ map decimal_char xs) s level
          (vprintf-before amount_name (37 ∷ 105 ∷ []) (number n ∷ [])
              (has_no_percent-HasNoPercent amount_name refl)
            ∙ ap (before (some amount_name)) (decimal_text n (map decimal_char xs) runs)),
    )

hex_text :
    (i : ℕ) (out : List ℕ)
    → print_hex i ≡ some out
    → vprintf (37 ∷ 120 ∷ []) (number i ∷ []) ≡ some out
unfolding vprintf
hex_text i out e = rw e (ap some (append_nil out))

location_lem :
    (n : ℕ) (s : Machine)
    → n < 2 ^ 64
    → s.log_level ≡ log_levels
    → (line : List ℕ) × IsLocation n line
      × (put_message system (location_name ++ (37 ∷ 120 ∷ [])) (number n ∷ []) s
          ≡ some (put_chars line s))
location_lem n s low level =
    let (xs, runs, is, below) = print_hex_lem n low in
    (
      log_line system (location_name ++ map hex_char xs),
      location xs (record { is = is; below = below }),
      message_runs (location_name ++ (37 ∷ 120 ∷ [])) (number n ∷ [])
          (location_name ++ map hex_char xs) s level
          (vprintf-before location_name (37 ∷ 120 ∷ []) (number n ∷ [])
              (has_no_percent-HasNoPercent location_name refl)
            ∙ ap (before (some location_name)) (hex_text n (map hex_char xs) runs)),
    )

-- Addresses of 64 bits.
pub record IsPlaced (c : Sections) : Type 0 where
  pub text_low : c.text_start < 2 ^ 64
  pub text_end_low : c.text_end < 2 ^ 64
  pub rodata_low : c.rodata_start < 2 ^ 64
  pub rodata_end_low : c.rodata_end < 2 ^ 64
  pub data_low : c.data_start < 2 ^ 64
  pub data_end_low : c.data_end < 2 ^ 64
  pub bss_low : c.bss_start < 2 ^ 64

-- The seven lines on where things lie.
pub data IsLayout (c : Sections) (l : Linker) : List ℕ → Type 0 where
  layout :
      {t r d b h a p : List ℕ}
      → IsRange text_name c.text_start c.text_end t
      → IsRange rodata_name c.rodata_start c.rodata_end r
      → IsRange data_name c.data_start c.data_end d
      → IsRange bss_name c.bss_start l.bss_end b
      → IsRange heap_name l.physical_heap_start (l.physical_heap_start + l.physical_heap_size) h
      → IsAmount (num_frames l) a
      → IsLocation (allign_address l.bss_end 4096) p
      → IsLayout c l (t ++ (r ++ (d ++ (b ++ (h ++ (a ++ p))))))

and_then_put :
    (o : Option Machine) (next : Machine → Option Machine) (line : List ℕ) (s : Machine)
    → o ≡ some (put_chars line s)
    → and_then o next ≡ next (put_chars line s)
and_then_put o next line s e = rw (e, and_then) refl

put_after : (xs ys : List ℕ) (s : Machine) → put_chars ys (put_chars xs s) ≡ put_chars (xs ++ ys) s
put_after xs ys s = ap (λ (out : List ℕ). record s { output = out }) (append_assoc s.output xs ys)

-- The messages of the allocator are the seven lines.
pub put_layout_lem :
    (c : Sections) (l : Linker) (s : Machine)
    → IsPlaced c
    → l.bss_end < 2 ^ 64
    → l.physical_heap_start + l.physical_heap_size < 2 ^ 64
    → num_frames l < 2 ^ 31
    → allign_address l.bss_end 4096 < 2 ^ 64
    → s.log_level ≡ log_levels
    → (lines : List ℕ) × IsLayout c l lines × (put_layout c l s ≡ some (put_chars lines s))
unfolding put_layout
put_layout_lem c l s v bss heap few place level =
    let (t, is_t, et) =
      range_lem text_name c.text_start c.text_end s (has_no_percent-HasNoPercent text_name refl)
        v.text_low v.text_end_low level in
    let s1 = put_chars t s in
    let (r, is_r, er) =
      range_lem rodata_name c.rodata_start c.rodata_end s1
        (has_no_percent-HasNoPercent rodata_name refl) v.rodata_low v.rodata_end_low level in
    let s2 = put_chars r s1 in
    let (d, is_d, ed) =
      range_lem data_name c.data_start c.data_end s2 (has_no_percent-HasNoPercent data_name refl)
        v.data_low v.data_end_low level in
    let s3 = put_chars d s2 in
    let (b, is_b, eb) =
      range_lem bss_name c.bss_start l.bss_end s3 (has_no_percent-HasNoPercent bss_name refl)
        v.bss_low bss level in
    let s4 = put_chars b s3 in
    let (h, is_h, eh) =
      range_lem heap_name l.physical_heap_start (l.physical_heap_start + l.physical_heap_size) s4
        (has_no_percent-HasNoPercent heap_name refl) (omega arith) heap level in
    let s5 = put_chars h s4 in
    let (a, is_a, ea) = amount_lem (num_frames l) s5 few level in
    let s6 = put_chars a s5 in
    let (p, is_p, ep) = location_lem (allign_address l.bss_end 4096) s6 place level in
    let whole : u64 (l.physical_heap_start + l.physical_heap_size)
        ≡ l.physical_heap_start + l.physical_heap_size =
      omega arith in
    (
      t ++ (r ++ (d ++ (b ++ (h ++ (a ++ p))))),
      layout is_t is_r is_d is_b is_h is_a is_p,
      rw (et, and_then)
          (rw (er, and_then)
            (rw (ed, and_then)
              (rw (eb, and_then)
                (rw whole (
                  rw (eh, and_then)
                    (rw (ea, and_then)
                      (ep
                        ∙ ap some (
                            put_after a p s5
                            ∙ put_after h (a ++ p) s4
                            ∙ put_after b (h ++ (a ++ p)) s3
                            ∙ put_after d (b ++ (h ++ (a ++ p))) s2
                            ∙ put_after r (d ++ (b ++ (h ++ (a ++ p)))) s1
                            ∙ put_after t (r ++ (d ++ (b ++ (h ++ (a ++ p))))) s)))))))),
    )
