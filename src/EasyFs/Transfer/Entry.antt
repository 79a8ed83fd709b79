-- ===== src/EasyFs/Transfer/Entry.antt =====
-- src/easy-fs/src/layout.rs: a directory entry gives back the name and the number that it was made of.
use project_r_core.Common.{
  ℕ, zero, suc, ◌-◌, ◌/◌, ◌^◌, ◌≤◌, ◌<◌, ◌≡◌, refl, ◌≢◌, ap, arith, some, List, [], ◌∷◌, ◌++◌,
  length, take, drop, replicate, length-append, length-replicate, le→leb, All, ne→not-==,
}
use native.Mathlib.Nat.{pow-suc}
use project_r_core.EasyFs.Transfer.{
  DirEntry, new_entry, name, until_zero, le_bytes, le_value, as_bytes, from_bytes,
}

until_zero-append : (xs ys : List ℕ) → All (λ x. x ≢ 0) xs → until_zero (xs ++ (0 ∷ ys)) ≡ some xs
unfolding until_zero
until_zero-append [] ys h = refl
until_zero-append (x ∷ xs) ys h = rw (ne→not-== x 0 h.0, until_zero-append xs ys h.1) refl

take-append : (xs ys : List ℕ) (n : ℕ) → length xs ≡ n → take n (xs ++ ys) ≡ xs
take-append [] ys zero h = refl
take-append [] ys (suc n) h = absurd (omega (arith, h))
take-append (x ∷ xs) ys zero h = absurd (omega (arith, h))
take-append (x ∷ xs) ys (suc n) h = ap (◌∷◌ x) (take-append xs ys n (omega (arith, h)))

drop-append : (xs ys : List ℕ) (n : ℕ) → length xs ≡ n → drop n (xs ++ ys) ≡ ys
drop-append [] ys zero h = refl
drop-append [] ys (suc n) h = absurd (omega (arith, h))
drop-append (x ∷ xs) ys zero h = absurd (omega (arith, h))
drop-append (x ∷ xs) ys (suc n) h = drop-append xs ys n (omega (arith, h))

le_value-le_bytes : (n v : ℕ) → v < 256 ^ n → le_value (le_bytes n v) ≡ v
unfolding le_value le_bytes
le_value-le_bytes zero v h = omega arith
le_value-le_bytes (suc n) v h =
    omega (arith, pow-suc 256 n, le_value-le_bytes n (v / 256) (omega (arith, pow-suc 256 n)))

length-le_bytes : (n v : ℕ) → length (le_bytes n v) ≡ n
unfolding le_bytes
length-le_bytes zero v = refl
length-le_bytes (suc n) v = ap suc (length-le_bytes n (v / 256))

-- An entry for a name of at most 27 bytes, none of them 0, is made and takes 32 bytes on the disk;
-- read back from them, it has that name and that inode number.
pub entry_roundtrip :
    (text : List ℕ) (number : ℕ)
    → length text ≤ 27
    → All (λ x. x ≢ 0) text
    → number < 2 ^ 32
    → (e : DirEntry) × (new_entry text number ≡ some e)
      × (length (as_bytes e) ≡ 32)
      × (name (from_bytes (as_bytes e)) ≡ some text)
      × ((from_bytes (as_bytes e)).entry_inode_number ≡ number)
unfolding new_entry as_bytes from_bytes name
entry_roundtrip text number short letters fits =
    let bytes = text ++ (0 ∷ replicate (27 - length text) 0) in
    let len : length bytes ≡ 28 = omega (
      arith,
      length-append text (0 ∷ replicate (27 - length text) 0),
      length-replicate {A = ℕ} (27 - length text) 0,
    ) in
    (
      record { entry_name = bytes; entry_inode_number = number },
      rw (le→leb (length text) 27 short) refl,
      omega (arith, length-append bytes (le_bytes 4 number), length-le_bytes 4 number, len),
      rw (take-append bytes (le_bytes 4 number) 28 len)
          (until_zero-append text (replicate (27 - length text) 0) letters),
      rw (drop-append bytes (le_bytes 4 number) 28 len) (le_value-le_bytes 4 number (omega arith)),
    )
