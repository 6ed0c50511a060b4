-- ===== src/Elf/Bytes.antt =====
-- The numbers that stand in an image, by place value, and the fields of `struct` as such numbers.
use zaynor.Prelude.{
  ℕ, zero, suc, ◌+◌, ◌*◌, ◌≤◌, ◌≡◌, refl, sym, ap, ap₂, ◌∙◌, List, [], ◌∷◌, length, get_or, take,
  drop, length-take, length-drop, arith,
}
use zaynor.Elf.Image.{Endian, little, big, little_value, big_value, uint, fields, total}
use zaynor.Elf.Rows.{drop-drop}
use Prim.Native.Nat.{◌^◌}

-- The number that the `width` bytes from `at` on spell: the last byte is the highest, or the lowest.
abbrev pub word : Endian → List ℕ → ℕ → ℕ → ℕ
word little bytes at zero = 0
word little bytes at (suc width) = get_or bytes at 0 + 256 * word little bytes (suc at) width
word big bytes at zero = 0
word big bytes at (suc width) = get_or bytes at 0 * 256 ^ width + word big bytes (suc at) width

-- The numbers that follow one another from `base + at` on.
abbrev pub words : Endian → List ℕ → ℕ → ℕ → List ℕ → List ℕ
words en bytes base at [] = []
words en bytes base at (w ∷ ws) = word en bytes (base + at) w ∷ words en bytes base (at + w) ws

head_drop :
    (at : ℕ) (bytes : List ℕ)
    → suc at ≤ length bytes
    → drop at bytes ≡ get_or bytes at 0 ∷ drop (suc at) bytes
head_drop at [] h = absurd (omega arith)
head_drop zero (b ∷ bs) h = refl
head_drop (suc at) (b ∷ bs) h = head_drop at bs (omega arith)

regroup :
    (acc b p s x : ℕ) → s ≡ 256 * p → (256 * acc + b) * p + x ≡ acc * s + ((256 * 0 + b) * p + x)
regroup acc b p s x h = rw h (grind arith)

big_value-acc : (acc : ℕ) (bs : List ℕ) → big_value acc bs ≡ acc * 256 ^ length bs + big_value 0 bs
big_value-acc acc [] = grind arith
big_value-acc acc (b ∷ bs) =
    let p : 256 ^ suc (length bs) ≡ 256 * 256 ^ length bs = grind arith in
    big_value-acc (256 * acc + b) bs
    ∙ regroup acc b (256 ^ length bs) (256 ^ suc (length bs)) (big_value 0 bs) p
    ∙ ap (λ n. acc * 256 ^ suc (length bs) + n) (sym (big_value-acc (256 * 0 + b) bs))

uint-word :
    (en : Endian) (bytes : List ℕ) (at width : ℕ)
    → at + width ≤ length bytes
    → uint en (take width (drop at bytes)) ≡ word en bytes at width
unfolding uint
uint-word little bytes at zero h = refl
uint-word little bytes at (suc width) h =
    ap (λ xs. little_value (take (suc width) xs)) (head_drop at bytes (omega arith))
    ∙ ap (λ n. get_or bytes at 0 + 256 * n) (uint-word little bytes (suc at) width (omega arith))
uint-word big bytes at zero h = refl
uint-word big bytes at (suc width) h =
    let rest = take width (drop (suc at) bytes) in
    let d = length-drop (suc at) bytes in
    let l : length rest ≡ width = length-take width (drop (suc at) bytes) (omega arith) in
    let z : 256 * 0 + get_or bytes at 0 ≡ get_or bytes at 0 = omega arith in
    ap (λ xs. big_value 0 (take (suc width) xs)) (head_drop at bytes (omega arith))
    ∙ ap (λ n. big_value n rest) z
    ∙ big_value-acc (get_or bytes at 0) rest
    ∙ ap₂ (λ n m. get_or bytes at 0 * 256 ^ n + m) l
        (uint-word big bytes (suc at) width (omega arith))

-- What `struct` unpacks inside the image are the numbers that stand there.
pub fields-words :
    (en : Endian) (bytes : List ℕ) (base at : ℕ) (ws : List ℕ)
    → base + at + total ws ≤ length bytes
    → fields en ws (drop (base + at) bytes) ≡ words en bytes base at ws
unfolding fields
fields-words en bytes base at [] h = refl
fields-words en bytes base at (w ∷ ws) h =
    let q : base + at + w ≡ base + (at + w) = omega arith in
    ap₂ ◌∷◌ (uint-word en bytes (base + at) w (omega arith)) (
      ap (fields en ws) (drop-drop w (base + at) bytes)
      ∙ ap (λ n. fields en ws (drop n bytes)) q
      ∙ fields-words en bytes base (at + w) ws (omega arith))
