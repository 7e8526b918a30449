-- ===== src/Position/Id.antt =====
-- The position ID, engine-core/positionid.c `Base64`, `oldPositionFromKey`, `PositionFromID`: ten
-- bytes, each chequer a 1 and each point ended by a 0, in base 64. A string is the list of its
-- character codes, without the NUL.
pub mod Decoded
use gnubg_android.Base.{
  ℕ, zero, suc, ◌+◌, ◌-◌, ◌*◌, ◌/◌, ◌%◌, ◌^◌, Bool, true, false, ◌&&◌, List, [], ◌∷◌, ◌++◌, ltb,
  leb, ◌==◌, if◌then◌else◌, get_or, set, replicate,
}
use gnubg_android.Base.Two.{Two, at, put}
use gnubg_android.Board.{TanBoard, point, u32}
use gnubg_android.Position.Check.{check_position}

unfoldable pub base64 : ℕ → ℕ
base64 ch =
    if leb 65 ch && leb ch 90
    then ch - 65
    else if leb 97 ch && leb ch 122
    then ch - 97 + 26
    else if leb 48 ch && leb ch 57
    then ch - 48 + 52
    else if ch == 43
    then 62
    else if ch == 47
    then 63
    else 255

-- `(unsigned char)(hi << up) | (lo >> down)`, stored in a byte. Both digits are below 256, so the two
-- parts share a bit only when a digit is not below 64.
abbrev pub bit_or_at : ℕ → ℕ → ℕ → ℕ
bit_or_at zero a b = 0
bit_or_at (suc n) a b =
    let rest = bit_or_at n (a / 2) (b / 2) in (if a % 2 + b % 2 == 0 then 0 else 1) + 2 * rest

-- `|` of two bytes.
abbrev pub or_byte : ℕ → ℕ → ℕ
or_byte a b = bit_or_at 8 a b

abbrev pub u8 : ℕ → ℕ
u8 n = n % 2 ^ 8

-- The bytes that four digits make up.
unfoldable pub three_bytes : ℕ → ℕ → ℕ → ℕ → List ℕ
three_bytes d0 d1 d2 d3 =
    or_byte (u8 (d0 * 2 ^ 2)) (d1 / 2 ^ 4)
    ∷ or_byte (u8 (d1 * 2 ^ 4)) (d2 / 2 ^ 2)
    ∷ or_byte (u8 (d2 * 2 ^ 6)) d3
    ∷ []

abbrev pub l_position_id : ℕ
l_position_id = 14

-- `Base64` of at most `n` characters of the string, and zeros after its end.
unfoldable pub digits : ℕ → List ℕ → List ℕ
digits zero sz = []
digits (suc n) [] = 0 ∷ digits n []
digits (suc n) (ch ∷ sz) = base64 ch ∷ digits n sz

-- The ten bytes of the key.
unfoldable pub key_bytes : List ℕ → List ℕ
key_bytes ach =
    three_bytes (get_or ach 0 0) (get_or ach 1 0) (get_or ach 2 0) (get_or ach 3 0)
    ++ (three_bytes (get_or ach 4 0) (get_or ach 5 0) (get_or ach 6 0) (get_or ach 7 0)
        ++ (three_bytes (get_or ach 8 0) (get_or ach 9 0) (get_or ach 10 0) (get_or ach 11 0)
            ++ (or_byte (u8 (get_or ach 12 0 * 2 ^ 2)) (get_or ach 13 0 / 2 ^ 4) ∷ [])))

-- The lowest `n` bits of a byte, the lowest first, before those of the bytes that follow.
unfoldable pub bits_of : ℕ → ℕ → List Bool → List Bool
bits_of zero cur after = after
bits_of (suc n) cur after = (cur % 2 == 1) ∷ bits_of n (cur / 2) after

unfoldable pub key_bits : List ℕ → List Bool
key_bits [] = []
key_bits (cur ∷ auch) = bits_of 8 cur (key_bits auch)

-- The loop over the bits: `i` is the side, `j` the point.
unfoldable pub fill : List Bool → ℕ → ℕ → TanBoard → TanBoard
fill [] i j b = b
fill (true ∷ bits) i j b =
    let more = fill bits i j (put b i (set (at b i) j (u32 (point (at b i) j + 1)))) in
    if leb 2 i then b else more
fill (false ∷ bits) i j b = if j + 1 == 25 then fill bits (i + 1) 0 b else fill bits i (j + 1) b

abbrev pub empty_board : TanBoard
empty_board = record { p0 = replicate 25 0; p1 = replicate 25 0 }

unfoldable pub old_position_from_key : List ℕ → TanBoard
old_position_from_key auch = fill (key_bits auch) 0 0 empty_board

unfoldable pub position_from_id : List ℕ → TanBoard × Bool
position_from_id sz =
    let b = old_position_from_key (key_bytes (digits l_position_id sz)) in (b, check_position b)
