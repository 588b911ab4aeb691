-- ===== src/Printf/Pieces.antt =====
-- What printf.c's loop prints for formats whose conversions are %s, %lu, %lx, %04lx, %016lx and %d.
use quin_kernel_template.Base.{
  ℕ, zero, suc, ◌-◌, ◌^◌, ◌<◌, ◌≡◌, sym, ap, ◌∙◌, Bool, true, false, not, ◌&&◌, ◌==◌, if◌then◌else◌,
  leb, arith, some, List, [], ◌∷◌, ◌++◌, length, append_nil, append_assoc,
}
use quin_kernel_template.Printf.{
  Arg, word, str, emit_all, emit_times, emit_padded, emit_unsigned, format, int_of, emit_signed,
  digits, lower,
}
use mathlib.Core.List.{reverse}
use quin_kernel_template.Printf.Fuel.{plain_step}

abbrev pub append : List ℕ → ℕ → List ℕ
append text c = text ++ (c ∷ [])

-- The numeral that `emit_unsigned` writes.
abbrev pub numeral : (value base width : ℕ) → Bool → List ℕ
numeral value base width zero_pad = emit_unsigned append value base false width zero_pad []

-- A part of a line: text as it stands, a string, or a number in one of the forms.
pub data Piece : Type 0 where
  plain : List ℕ → Piece
  string : List ℕ → Piece
  decimal hex hex4 hex16 index : ℕ → Piece

abbrev pub piece_format : Piece → List ℕ
piece_format (plain cs) = cs
piece_format (string cs) = b'%' ∷ b's' ∷ []
piece_format (decimal w) = b'%' ∷ b'l' ∷ b'u' ∷ []
piece_format (hex w) = b'%' ∷ b'l' ∷ b'x' ∷ []
piece_format (hex4 w) = b'%' ∷ b'0' ∷ b'4' ∷ b'l' ∷ b'x' ∷ []
piece_format (hex16 w) = b'%' ∷ b'0' ∷ b'1' ∷ b'6' ∷ b'l' ∷ b'x' ∷ []
piece_format (index w) = b'%' ∷ b'd' ∷ []

abbrev pub piece_args : Piece → List Arg → List Arg
piece_args (plain cs) rest = rest
piece_args (string cs) rest = str (some cs) ∷ rest
piece_args (decimal w) rest = word w ∷ rest
piece_args (hex w) rest = word w ∷ rest
piece_args (hex4 w) rest = word w ∷ rest
piece_args (hex16 w) rest = word w ∷ rest
piece_args (index w) rest = word w ∷ rest

abbrev pub piece_text : Piece → List ℕ
piece_text (plain cs) = cs
piece_text (string cs) = cs
piece_text (decimal w) = numeral w 10 0 false
piece_text (hex w) = numeral w 16 0 false
piece_text (hex4 w) = numeral w 16 4 true
piece_text (hex16 w) = numeral w 16 16 true
piece_text (index w) = numeral w 10 0 false

abbrev pub no_percent : List ℕ → Bool
no_percent [] = true
no_percent (c ∷ cs) = not (c == 37) && no_percent cs

abbrev pub IsGood : Piece → Type 0
IsGood (plain cs) = no_percent cs ≡ true
IsGood (index w) = w < 2 ^ 31
IsGood _ = Unit

-- The rounds of the loop that a piece takes, and `n` more.
abbrev after : List ℕ → ℕ → ℕ
after [] n = n
after (c ∷ cs) n = suc (after cs n)

abbrev pub rounds : Piece → ℕ → ℕ
rounds (plain cs) n = after cs n
rounds _ n = suc n

emit_all-append : (cs ctx : List ℕ) → emit_all append cs ctx ≡ ctx ++ cs
unfolding emit_all
emit_all-append [] ctx = sym (append_nil ctx)
emit_all-append (c ∷ cs) ctx = emit_all-append cs (ctx ++ (c ∷ [])) ∙ append_assoc ctx (c ∷ []) cs

emit_times-append :
    (n c : ℕ) (ctx : List ℕ) → emit_times append n c ctx ≡ ctx ++ emit_times append n c []
unfolding emit_times
emit_times-append zero c ctx = sym (append_nil ctx)
emit_times-append (suc n) c ctx =
    emit_times-append n c (ctx ++ (c ∷ []))
    ∙ append_assoc ctx (c ∷ []) (emit_times append n c [])
    ∙ ap (λ t. ctx ++ t) (sym (emit_times-append n c (c ∷ [])))

emit_padded-append :
    (text : List ℕ) (width : ℕ) (zero_pad : Bool) (ctx : List ℕ)
    → emit_padded append text width zero_pad ctx ≡ ctx ++ emit_padded append text width zero_pad []
unfolding emit_padded
emit_padded-append text width zero_pad ctx =
    let pad = emit_times append (width - length text) (if zero_pad then 48 else 32) in
    emit_all-append text (pad ctx)
    ∙ ap (λ t. t ++ text)
        (emit_times-append (width - length text) (if zero_pad then 48 else 32) ctx)
    ∙ append_assoc ctx (pad []) text
    ∙ ap (λ t. ctx ++ t) (sym (emit_all-append text (pad [])))

numeral-append :
    (value base width : ℕ) (zero_pad : Bool) (ctx : List ℕ)
    → emit_unsigned append value base false width zero_pad ctx
      ≡ ctx ++ numeral value base width zero_pad
unfolding emit_unsigned
numeral-append value base width zero_pad ctx =
    emit_padded-append (reverse (digits 32 lower value base)) width zero_pad ctx

plain_lem :
    (cs : List ℕ) (fuel : ℕ) (p : List ℕ) (args : List Arg) (ctx : List ℕ)
    → no_percent cs ≡ true
    → format append (after cs fuel) (cs ++ p) args ctx ≡ format append fuel p args (ctx ++ cs)
plain_lem [] fuel p args ctx h = ap (format append fuel p args) (sym (append_nil ctx))
plain_lem (c ∷ cs) fuel p args ctx h =
    plain_step append (after cs fuel) c (cs ++ p) args ctx (ground (arith, h))
    ∙ plain_lem cs fuel p args (ctx ++ (c ∷ [])) (ground (arith, h))
    ∙ ap (format append fuel p args) (append_assoc ctx (c ∷ []) cs)

int_of-small : (w : ℕ) → w < 2 ^ 31 → int_of w ≡ w
unfolding int_of
int_of-small w small = ground arith

string_lem : (cs ctx : List ℕ) → emit_padded append cs 0 false ctx ≡ ctx ++ cs
unfolding emit_padded emit_times
string_lem cs ctx =
    let none : 0 - length cs ≡ 0 = omega arith in
    ap (λ n. emit_all append cs (emit_times append n 32 ctx)) none ∙ emit_all-append cs ctx

index_lem :
    (w : ℕ) (ctx : List ℕ)
    → w < 2 ^ 31
    → emit_signed append (int_of w) 0 false ctx ≡ ctx ++ numeral w 10 0 false
unfolding emit_signed
index_lem w ctx small =
    let same : int_of w ≡ w = int_of-small w small in
    let positive : leb (2 ^ 63) w ≡ false = ground arith in
    rw (same, positive) (numeral-append w 10 0 false ctx)

piece_lem :
    (x : Piece) (fuel : ℕ) (p : List ℕ) (args : List Arg) (ctx : List ℕ)
    → IsGood x
    → format append (rounds x fuel) (piece_format x ++ p) (piece_args x args) ctx
      ≡ format append fuel p args (ctx ++ piece_text x)
unfolding format
piece_lem (plain cs) fuel p args ctx h = plain_lem cs fuel p args ctx h
piece_lem (decimal w) fuel p args ctx h =
    ap (format append fuel p args) (numeral-append w 10 0 false ctx)
piece_lem (hex w) fuel p args ctx h =
    ap (format append fuel p args) (numeral-append w 16 0 false ctx)
piece_lem (hex4 w) fuel p args ctx h =
    ap (format append fuel p args) (numeral-append w 16 4 true ctx)
piece_lem (hex16 w) fuel p args ctx h =
    ap (format append fuel p args) (numeral-append w 16 16 true ctx)
piece_lem (string cs) fuel p args ctx h = ap (format append fuel p args) (string_lem cs ctx)
piece_lem (index w) fuel p args ctx h = ap (format append fuel p args) (index_lem w ctx h)

-- A line: its pieces.
abbrev pub line_format : List Piece → List ℕ
line_format [] = []
line_format (x ∷ xs) = piece_format x ++ line_format xs

abbrev pub line_args : List Piece → List Arg
line_args [] = []
line_args (x ∷ xs) = piece_args x (line_args xs)

abbrev pub pieces_text : List Piece → List ℕ
pieces_text [] = []
pieces_text (x ∷ xs) = piece_text x ++ pieces_text xs

abbrev pub AllGood : List Piece → Type 0
AllGood [] = Unit
AllGood (x ∷ xs) = IsGood x × AllGood xs

abbrev pub all_rounds : List Piece → ℕ → ℕ
all_rounds [] n = n
all_rounds (x ∷ xs) n = rounds x (all_rounds xs n)

-- What the loop prints for a line.
pub pieces_lem :
    (xs : List Piece) (spare : ℕ) (ctx : List ℕ)
    → AllGood xs
    → format append (all_rounds xs spare) (line_format xs) (line_args xs) ctx
      ≡ some (ctx ++ pieces_text xs)
unfolding format
pieces_lem [] spare ctx good = ap some (sym (append_nil ctx))
pieces_lem (x ∷ xs) spare ctx good =
    piece_lem x (all_rounds xs spare) (line_format xs) (line_args xs) ctx good.0
    ∙ pieces_lem xs spare (ctx ++ piece_text x) good.1
    ∙ ap some (append_assoc ctx (piece_text x) (pieces_text xs))
