-- ===== src/Kernel/UserBuffer/Pieces.antt =====
-- os/src/mm/page_table.rs: the iterator over a user buffer goes through the bytes of its pieces in order.
use project_r_core.Common.{
  ℕ, zero, suc, ◌+◌, ◌-◌, ◌<◌, ◌≡◌, refl, ◌≢◌, ◌∙◌, ap, ap₂, sym, arith, Option, none, some, List,
  [], ◌∷◌, ◌++◌, ◌==◌, if◌then◌else◌, if_true, if_false, lt→ltb, eq→==, ne→not-==, ◌>>=◌, length,
  length-append, get_elem?, All,
}
use project_r_core.Kernel.UserBuffer.{
  Slice, UserBuffer, UserBufferIterator, into_iter, next_in, next, collect, total_len,
}

-- The addresses of the `n` bytes of a piece from the `i`-th on, and those of all the pieces.
pub addresses : ℕ → ℕ → List ℕ
addresses at zero = []
addresses at (suc n) = at ∷ addresses (at + 1) n

pub all_addresses : List Slice → List ℕ
unfolding addresses
all_addresses [] = []
all_addresses (s ∷ ss) = addresses s.base s.len ++ all_addresses ss

length-addresses : (at n : ℕ) → length (addresses at n) ≡ n
unfolding addresses
length-addresses at zero = refl
length-addresses at (suc n) = ap suc (length-addresses (at + 1) n)

length-all_addresses : (ss : List Slice) → length (all_addresses ss) ≡ total_len ss
unfolding all_addresses total_len
length-all_addresses [] = refl
length-all_addresses (s ∷ ss) = omega (
  arith,
  length-append (addresses s.base s.len) (all_addresses ss),
  length-addresses s.base s.len,
  length-all_addresses ss,
)

get_elem?-past : {A : Type 0} (xs : List A) → get_elem? (xs ++ []) (length xs) ≡ none
get_elem?-past [] = refl
get_elem?-past (x ∷ xs) = get_elem?-past xs

get_elem?-next :
    {A : Type 0} (xs : List A) (y : A) (ys : List A)
    → get_elem? (xs ++ (y ∷ ys)) (length xs) ≡ some y
get_elem?-next [] y ys = refl
get_elem?-next (x ∷ xs) y ys = get_elem?-next xs y ys

append_assoc :
    (xs : List Slice) (y : Slice) (ys : List Slice) → (xs ++ (y ∷ [])) ++ ys ≡ xs ++ (y ∷ ys)
append_assoc [] y ys = refl
append_assoc (x ∷ xs) y ys = ap (◌∷◌ x) (append_assoc xs y ys)

-- At byte `i` of piece `piece`.
abbrev at_byte : List Slice → ℕ → ℕ → UserBufferIterator
at_byte buffers piece i = record { buffers = buffers; current_buffer = piece; current_idx = i }

-- The address of a byte, before those that the rest of the run returns.
abbrev before_rest : ℕ → Option (List ℕ) → Option (List ℕ)
before_rest at r = r >>= λ rest. some (at ∷ rest)

next-within :
    (buffers : List Slice) (p i : ℕ) (s : Slice)
    → get_elem? buffers p ≡ some s
    → i < s.len
    → next (at_byte buffers p i)
      ≡ some (
          some (
            s.base + i,
            if i + 1 == s.len then at_byte buffers (p + 1) 0 else at_byte buffers p (i + 1),
          ))
unfolding next next_in
next-within buffers p i s found inside = rw (found, lt→ltb i s.len inside) refl

next-end :
    (buffers : List Slice) (p : ℕ)
    → get_elem? buffers p ≡ none
    → next (at_byte buffers p 0) ≡ some none
unfolding next
next-end buffers p past = rw past refl

step_within :
    (fuel : ℕ) (buffers : List Slice) (p i : ℕ) (s : Slice)
    → get_elem? buffers p ≡ some s
    → i < s.len
    → collect (suc fuel) (at_byte buffers p i)
      ≡ before_rest (s.base + i) (
          collect fuel
            (if i + 1 == s.len then at_byte buffers (p + 1) 0 else at_byte buffers p (i + 1)))
unfolding collect
step_within fuel buffers p i s found inside = rw (next-within buffers p i s found inside) refl

step_end :
    (fuel : ℕ) (buffers : List Slice) (p : ℕ)
    → get_elem? buffers p ≡ none
    → collect (suc fuel) (at_byte buffers p 0) ≡ some []
unfolding collect
step_end fuel buffers p past = rw (next-end buffers p past) refl

-- A run through the rest of one piece, where `k` is the fuel for the pieces behind it.
collect_piece :
    (left k fuel : ℕ) (buffers : List Slice) (p i : ℕ) (s : Slice) (rest : List ℕ)
    → fuel ≡ suc left + k
    → get_elem? buffers p ≡ some s
    → i + suc left ≡ s.len
    → collect k (at_byte buffers (p + 1) 0) ≡ some rest
    → collect fuel (at_byte buffers p i) ≡ some (addresses (s.base + i) (suc left) ++ rest)
unfolding addresses
collect_piece left k zero buffers p i s rest e found room behind = absurd (omega (arith, e))
collect_piece zero k (suc fuel) buffers p i s rest e found room behind =
    step_within fuel buffers p i s found (omega (arith, room))
    ∙ ap (λ it. before_rest (s.base + i) (collect fuel it)) (if_true _ _ (eq→== (i + 1) s.len room))
    ∙ ap (λ n. before_rest (s.base + i) (collect n (at_byte buffers (p + 1) 0))) same
    ∙ ap (before_rest (s.base + i)) behind
  where
    same : fuel ≡ k
    same = omega (arith, e)
collect_piece (suc left) k (suc fuel) buffers p i s rest e found room behind =
    step_within fuel buffers p i s found (omega (arith, room))
    ∙ ap (λ it. before_rest (s.base + i) (collect fuel it))
        (if_false _ _ (ne→not-== (i + 1) s.len more))
    ∙ ap (before_rest (s.base + i)) (
        collect_piece left k fuel buffers p (i + 1) s rest (omega (arith, e)) found
          (omega (arith, room)) behind)
    ∙ ap (λ at. some ((s.base + i) ∷ (addresses at (suc left) ++ rest))) along
  where
    more : i + 1 ≢ s.len
    more = λ x. absurd (omega (arith, room, x))

    along : s.base + (i + 1) ≡ s.base + i + 1
    along = omega arith

-- Behind a piece, the pieces up to it are the ones before.
onwards :
    (before : List Slice) (s : Slice) (after : List Slice) (k : ℕ) (r : Option (List ℕ))
    → collect k (at_byte ((before ++ (s ∷ [])) ++ after) (length (before ++ (s ∷ []))) 0) ≡ r
    → collect k (at_byte (before ++ (s ∷ after)) (length before + 1) 0) ≡ r
onwards before s after k r h =
    ap₂ (λ buffers p. collect k (at_byte buffers p 0)) (sym (append_assoc before s after))
      (sym next_piece)
    ∙ h
  where
    next_piece : length (before ++ (s ∷ [])) ≡ length before + 1
    next_piece = omega (arith, length-append before (s ∷ []))

collect_pieces :
    (after before : List Slice) (fuel : ℕ)
    → All (λ s. 0 < s.len) after
    → fuel ≡ suc (total_len after)
    → collect fuel (at_byte (before ++ after) (length before) 0) ≡ some (all_addresses after)
unfolding all_addresses total_len
collect_pieces after before zero full e = absurd (omega (arith, e))
collect_pieces [] before (suc fuel) full e =
    step_end fuel (before ++ []) (length before) (get_elem?-past before)
collect_pieces (s ∷ after) before (suc fuel) full e =
    collect_piece (s.len - 1) (suc (total_len after)) (suc fuel) (before ++ (s ∷ after))
      (length before) 0 s (all_addresses after) (omega (arith, e, full.0))
      (get_elem?-next before s after) (omega (arith, full.0))
      (onwards before s after (suc (total_len after)) (some (all_addresses after))
        (collect_pieces after (before ++ (s ∷ [])) (suc (total_len after)) full.1 refl))
    ∙ ap₂ (λ at n. some (addresses at n ++ all_addresses after)) base len
  where
    base : s.base + 0 ≡ s.base
    base = omega arith

    len : suc (s.len - 1) ≡ s.len
    len = omega (arith, full.0)

-- The iterator over a user buffer returns the addresses of all the bytes of its pieces, in the order of
-- the pieces, `len` of them, and then ends; provided that no piece is empty.
pub into_iter-collect :
    (b : UserBuffer)
    → All (λ s. 0 < s.len) b.buffers
    → (collect (suc (total_len b.buffers)) (into_iter b) ≡ some (all_addresses b.buffers))
      × (length (all_addresses b.buffers) ≡ total_len b.buffers)
unfolding into_iter
into_iter-collect b full = (
  collect_pieces b.buffers [] (suc (total_len b.buffers)) full refl,
  length-all_addresses b.buffers,
)
