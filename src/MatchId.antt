-- ===== src/MatchId.antt =====
-- The match ID, engine-core/matchid.c `LogCube`, `SetBit`, `SetBits`, `GetBits`, `MatchIDFromKey`,
-- `MatchID`, `MatchFromKey`, `MatchFromID`, `MatchIDFromMatchState`: 67 bits in nine bytes, in base 64.
-- An int whose bits are stored is a number modulo 2^32.
pub mod Bits
pub mod Fields
pub mod RoundTrip
pub mod Text
pub mod Accepted
mod Examples
use gnubg_android.Base.{
  ℕ, zero, suc, ◌+◌, ◌-◌, ◌*◌, ◌/◌, ◌%◌, ◌^◌, Bool, true, false, not, ◌&&◌, ◌||◌, List, [], ◌∷◌,
  ◌++◌, ltb, leb, ◌==◌, if◌then◌else◌, get_or, set, replicate,
}
use gnubg_android.Base.Int.{ℤ, pos, negsuc, of_bool}
use gnubg_android.Base.Two.{Two}
use gnubg_android.Position.Id.{or_byte, digits, three_bytes}
use gnubg_android.Game.{MatchState, GameState, no_game, playing, over, resigned, drop, max_score}

-- `while (n >>= 1) i++;`: `n` rounds are enough, since each halves the number.
unfoldable pub log_from : ℕ → ℕ → ℕ → ℕ
log_from zero n i = i
log_from (suc fuel) n i = let more = log_from fuel (n / 2) (i + 1) in if n / 2 == 0 then i else more

unfoldable pub log_cube : ℕ → ℕ
log_cube n = log_from n n 0

-- The bit of `test` that is stored.
abbrev pub bit_at : ℕ → ℕ → ℕ
bit_at test i_bit = test / 2 ^ i_bit % 2

-- `pc[k] = (pc[k] & (0xFF ^ rbit)) | c`: one bit of a byte is cleared, and then set or not.
unfoldable pub set_bit : List ℕ → ℕ → ℕ → ℕ → List ℕ
set_bit pc bit_pos test i_bit =
    let k = bit_pos / 8 in
    let r = bit_pos % 8 in
    let old = get_or pc k 0 in set pc k (old - bit_at old r * 2 ^ r + bit_at test i_bit * 2 ^ r)

-- The rest of the loop, `n` bits from bit `i` on.
unfoldable pub set_bits_from : ℕ → ℕ → List ℕ → ℕ → ℕ → List ℕ
set_bits_from zero i pc bit_pos content = pc
set_bits_from (suc n) i pc bit_pos content =
    set_bits_from n (i + 1) (set_bit pc (bit_pos + i) content i) bit_pos content

abbrev pub set_bits : List ℕ → ℕ → ℕ → ℕ → List ℕ
set_bits pc bit_pos n_bits content = set_bits_from n_bits 0 pc bit_pos content

unfoldable pub get_bits_from : ℕ → ℕ → List ℕ → List ℕ → ℕ → List ℕ
get_bits_from zero i c pc bit_pos = c
get_bits_from (suc n) i c pc bit_pos =
    let j = bit_pos + i in
    get_bits_from n (i + 1) (set_bit c i (get_or pc (j / 8) 0) (j % 8)) pc bit_pos

-- `c[0] | (c[1] << 8)`.
unfoldable pub get_bits : List ℕ → ℕ → ℕ → ℕ
get_bits pc bit_pos n_bits =
    let c = get_bits_from n_bits 0 (0 ∷ 0 ∷ []) pc bit_pos in get_or c 0 0 + get_or c 1 0 * 2 ^ 8

-- `aszBase64`.
abbrev pub base64_chars : List ℕ
base64_chars =
    65 ∷ 66 ∷ 67 ∷ 68 ∷ 69 ∷ 70 ∷ 71 ∷ 72 ∷ 73 ∷ 74 ∷ 75 ∷ 76 ∷ 77 ∷ 78 ∷ 79 ∷ 80 ∷ 81 ∷ 82 ∷ 83
    ∷ 84 ∷ 85 ∷ 86 ∷ 87 ∷ 88 ∷ 89 ∷ 90 ∷ 97 ∷ 98 ∷ 99 ∷ 100 ∷ 101 ∷ 102 ∷ 103 ∷ 104 ∷ 105 ∷ 106
    ∷ 107 ∷ 108 ∷ 109 ∷ 110 ∷ 111 ∷ 112 ∷ 113 ∷ 114 ∷ 115 ∷ 116 ∷ 117 ∷ 118 ∷ 119 ∷ 120 ∷ 121 ∷ 122
    ∷ 48 ∷ 49 ∷ 50 ∷ 51 ∷ 52 ∷ 53 ∷ 54 ∷ 55 ∷ 56 ∷ 57 ∷ 43 ∷ 47 ∷ []

unfoldable pub four_chars : ℕ → ℕ → ℕ → List ℕ
four_chars p0 p1 p2 =
    get_or base64_chars (p0 / 2 ^ 2) 0
    ∷ get_or base64_chars (or_byte (p0 % 4 * 2 ^ 4) (p1 / 2 ^ 4)) 0
    ∷ get_or base64_chars (or_byte (p1 % 16 * 2 ^ 2) (p2 / 2 ^ 6)) 0
    ∷ get_or base64_chars (p2 % 64) 0
    ∷ []

unfoldable pub match_id_from_key : List ℕ → List ℕ
match_id_from_key k =
    four_chars (get_or k 0 0) (get_or k 1 0) (get_or k 2 0)
    ++ (four_chars (get_or k 3 0) (get_or k 4 0) (get_or k 5 0)
        ++ four_chars (get_or k 6 0) (get_or k 7 0) (get_or k 8 0))

-- An int as its 32 bits.
abbrev pub int_bits : ℤ → ℕ
int_bits (pos n) = n % 2 ^ 32
int_bits (negsuc n) = 2 ^ 32 - 1 - n % 2 ^ 32

abbrev pub flag : Bool → ℕ
flag b = if b then 1 else 0

-- The enumerator of a `gamestate`.
abbrev pub gs_code : GameState → ℕ
gs_code no_game = 0
gs_code playing = 1
gs_code over = 2
gs_code resigned = 3
gs_code drop = 4

-- The key that `MatchID` fills, on the fields of a match state.
unfoldable pub match_key : MatchState → List ℕ
match_key ms =
    let k = replicate 9 0 in
    let k = set_bits k 0 4 (log_cube ms.n_cube) in
    let k = set_bits k 4 2 (int_bits ms.f_cube_owner % 4) in
    let k = set_bits k 6 1 (int_bits ms.f_move) in
    let k = set_bits k 7 1 (flag ms.f_crawford) in
    let k = set_bits k 8 3 (gs_code ms.gs) in
    let k = set_bits k 11 1 (int_bits ms.f_turn) in
    let k = set_bits k 12 1 (flag ms.f_doubled) in
    let k = set_bits k 13 2 ms.f_resigned in
    let larger = if leb ms.an_dice.p1 ms.an_dice.p0 then ms.an_dice.p0 else ms.an_dice.p1 in
    let smaller = if leb ms.an_dice.p1 ms.an_dice.p0 then ms.an_dice.p1 else ms.an_dice.p0 in
    let k = set_bits k 15 3 (larger % 8) in
    let k = set_bits k 18 3 (smaller % 8) in
    let k = set_bits k 21 15 (ms.n_match_to % 2 ^ 15) in
    let k = set_bits k 36 15 (ms.an_score.p0 % 2 ^ 15) in
    let k = set_bits k 51 15 (ms.an_score.p1 % 2 ^ 15) in set_bits k 66 1 (flag (not ms.f_jacoby))

unfoldable pub match_id_from_match_state : MatchState → List ℕ
match_id_from_match_state ms = match_id_from_key (match_key ms)

-- What `MatchFromKey` stores through its pointers.
pub record MatchInfo : Type 0 where
  pub an_dice : Two ℕ
  pub f_turn : ℕ
  pub f_resigned : ℕ
  pub f_doubled : ℕ
  pub f_move : ℕ
  pub f_cube_owner : ℤ
  pub f_crawford : ℕ
  pub n_match_to : ℕ
  pub an_score : Two ℕ
  pub n_cube : ℕ
  pub f_jacoby : Bool
  pub gs : ℕ

unfoldable pub read_key : List ℕ → MatchInfo
read_key key = record {
  an_dice = record { p0 = get_bits key 15 3; p1 = get_bits key 18 3 };
  f_turn = get_bits key 11 1;
  f_resigned = get_bits key 13 2;
  f_doubled = get_bits key 12 1;
  f_move = get_bits key 6 1;
  f_cube_owner = let owner = get_bits key 4 2 in if ltb 1 owner then negsuc 0 else pos owner;
  f_crawford = get_bits key 7 1;
  n_match_to = get_bits key 21 15;
  an_score = record { p0 = get_bits key 36 15; p1 = get_bits key 51 15 };
  n_cube = 2 ^ get_bits key 0 4;
  f_jacoby = get_bits key 66 1 == 0;
  gs = get_bits key 8 3;
}

-- The tests, which come after everything is stored. The numbers read are never negative.
unfoldable pub match_code : MatchInfo → ℤ
match_code m =
    if ltb 6 m.an_dice.p0
    then negsuc 0
    else if ltb 6 m.an_dice.p1
    then negsuc 0
    else if ltb max_score m.n_match_to
    then negsuc 0
    else if not (m.n_match_to == 0)
    then if ltb m.n_match_to m.an_score.p0
      then negsuc 0
      else if ltb m.n_match_to m.an_score.p1
      then negsuc 0
      else pos 0
    else if not (m.f_crawford == 0)
    then negsuc 0
    else pos 0

unfoldable pub match_from_key : List ℕ → MatchInfo × ℤ
match_from_key key = let m = read_key key in (m, match_code m)

unfoldable pub match_from_id : List ℕ → MatchInfo × ℤ
match_from_id sz =
    let ach = digits 12 sz in
    match_from_key (
      three_bytes (get_or ach 0 0) (get_or ach 1 0) (get_or ach 2 0) (get_or ach 3 0)
      ++ (three_bytes (get_or ach 4 0) (get_or ach 5 0) (get_or ach 6 0) (get_or ach 7 0)
          ++ three_bytes (get_or ach 8 0) (get_or ach 9 0) (get_or ach 10 0) (get_or ach 11 0)))
