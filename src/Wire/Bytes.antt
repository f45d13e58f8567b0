-- ===== src/Wire/Bytes.antt =====
-- Byte slices as lists of numbers, and the parts of Go's encoding/binary that the client uses.
use ha_addon_petlibro_local.Prelude.{
  ℕ, zero, suc, ◌+◌, ◌-◌, ◌*◌, ◌/◌, ◌%◌, ◌≤◌, ◌<◌, ◌≡◌, refl, ap, List, [], ◌∷◌, ◌++◌, take, drop,
  get_or, length, replicate, length-take, length-drop, arith,
}

abbrev pub IsByte : ℕ → Type 0
IsByte b = b < 256

abbrev pub AllBytes : List ℕ → Type 0
AllBytes [] = Unit {0}
AllBytes (b ∷ bs) = IsByte b × AllBytes bs

-- `b[i]` where `i` is in range.
abbrev pub at : List ℕ → ℕ → ℕ
at b i = get_or b i 0

-- `b[i:j]` where `i ≤ j ≤ len(b)`.
abbrev pub slice : List ℕ → ℕ → ℕ → List ℕ
slice b i j = take (j - i) (drop i b)

-- binary.LittleEndian.Uint16(b[i:]) and Uint32(b[i:]).
abbrev pub u16_at : List ℕ → ℕ → ℕ
u16_at b i = at b i + 256 * at b (i + 1)

abbrev pub u32_at : List ℕ → ℕ → ℕ
u32_at b i = at b i + 256 * at b (i + 1) + 65536 * at b (i + 2) + 16777216 * at b (i + 3)

-- What PutUint16 and PutUint32 write.
abbrev pub le16 : ℕ → List ℕ
le16 v = (v % 256) ∷ (v / 256 % 256) ∷ []

abbrev pub le32 : ℕ → List ℕ
le32 v = (v % 256) ∷ (v / 256 % 256) ∷ (v / 65536 % 256) ∷ (v / 16777216 % 256) ∷ []

-- `copy(b[i:], src)`: what does not fit is left out.
unfoldable pub copy_at : List ℕ → ℕ → List ℕ → List ℕ
copy_at [] i src = []
copy_at (x ∷ b) (suc i) src = x ∷ copy_at b i src
copy_at (x ∷ b) zero [] = x ∷ b
copy_at (x ∷ b) zero (y ∷ src) = y ∷ copy_at b zero src

-- `make([]byte, n)`.
abbrev pub zeros : ℕ → List ℕ
zeros n = replicate n 0

length-copy_at : (b : List ℕ) (i : ℕ) (src : List ℕ) → length (copy_at b i src) ≡ length b
unfolding copy_at
length-copy_at [] i src = refl
length-copy_at (x ∷ b) (suc i) src = ap suc (length-copy_at b i src)
length-copy_at (x ∷ b) zero [] = refl
length-copy_at (x ∷ b) zero (y ∷ src) = ap suc (length-copy_at b zero src)

-- A buffer of the right size takes the whole source.
copy_at-zeros : (src : List ℕ) → copy_at (zeros (length src)) 0 src ≡ src
unfolding copy_at
copy_at-zeros [] = refl
copy_at-zeros (y ∷ src) = ap (λ t. y ∷ t) (copy_at-zeros src)

pub zeros-add : (m n : ℕ) → zeros (m + n) ≡ zeros m ++ zeros n
zeros-add zero n = ap zeros (omega arith)
zeros-add (suc m) n =
    let e : suc m + n ≡ suc (m + n) = omega arith in rw e (ap (λ t. 0 ∷ t) (zeros-add m n))

pub length-slice : (b : List ℕ) (i j : ℕ) → i ≤ j → j ≤ length b → length (slice b i j) ≡ j - i
length-slice b i j h k = omega (arith, length-take (j - i) (drop i b), length-drop i b)

pub AllBytes-drop : (n : ℕ) (b : List ℕ) → AllBytes b → AllBytes (drop n b)
AllBytes-drop zero b h = h
AllBytes-drop (suc n) [] h = tt
AllBytes-drop (suc n) (x ∷ b) h = AllBytes-drop n b h.1

AllBytes-take : (n : ℕ) (b : List ℕ) → AllBytes b → AllBytes (take n b)
AllBytes-take zero b h = tt
AllBytes-take (suc n) [] h = tt
AllBytes-take (suc n) (x ∷ b) h = (h.0, AllBytes-take n b h.1)

pub at-lt : (b : List ℕ) (i : ℕ) → AllBytes b → at b i < 256
at-lt [] i h = omega arith
at-lt (x ∷ b) zero h = h.0
at-lt (x ∷ b) (suc i) h = at-lt b i h.1

-- Writing nothing changes nothing.
pub copy_at-nil : (b : List ℕ) (i : ℕ) → copy_at b i [] ≡ b
unfolding copy_at
copy_at-nil [] i = refl
copy_at-nil (x ∷ b) zero = refl
copy_at-nil (x ∷ b) (suc i) = ap (λ t. x ∷ t) (copy_at-nil b i)

pub copy_at_whole : (n : ℕ) (src : List ℕ) → length src ≡ n → copy_at (zeros n) 0 src ≡ src
copy_at_whole n src e = rw (← e) (copy_at-zeros src)

-- Behind a prefix, writing works on the rest.
pub copy_at-append :
    (front b src : List ℕ) → copy_at (front ++ b) (length front) src ≡ front ++ copy_at b 0 src
unfolding copy_at
copy_at-append [] [] src = refl
copy_at-append [] (x ∷ b) [] = refl
copy_at-append [] (x ∷ b) (y ∷ src) = refl
copy_at-append (x ∷ front) b src = ap (λ t. x ∷ t) (copy_at-append front b src)
