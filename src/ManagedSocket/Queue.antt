-- ===== src/ManagedSocket/Queue.antt =====
-- What `completeWrite` takes off the queue.
use adchubd.Base.{
  ℕ, zero, suc, ◌-◌, ◌≤◌, ◌≡◌, refl, ap, sym, ◌∙◌, List, [], ◌∷◌, ◌++◌, inl, inr, Bool-cases, some,
  Bytes, leb, length, drop, length-append, arith,
}
use adchubd.ManagedSocket.{consume}
use adchubd.ManagedSocket.Stream.{joined}

drop-append_past :
    (n : ℕ) (xs ys : Bytes) → length xs ≤ n → drop n (xs ++ ys) ≡ drop (n - length xs) ys
drop-append_past n [] ys h = ap (λ (k : ℕ). drop k ys) (omega arith)
drop-append_past zero (x ∷ xs) ys h = absurd (omega arith)
drop-append_past (suc n) (x ∷ xs) ys h =
    drop-append_past n xs ys (omega arith) ∙ ap (λ (k : ℕ). drop k ys) (omega arith)

drop-append_within : (n : ℕ) (xs ys : Bytes) → n ≤ length xs → drop n (xs ++ ys) ≡ drop n xs ++ ys
drop-append_within zero xs ys h = refl
drop-append_within (suc n) [] ys h = absurd (omega arith)
drop-append_within (suc n) (x ∷ xs) ys h = drop-append_within n xs ys (omega arith)

-- Where the queue has as many bytes, the loop takes off exactly the first ones.
pub consume-drop :
    (n : ℕ) (l : List Bytes)
    → n ≤ length (joined l)
    → (m : List Bytes) × (consume n l ≡ some m) × (joined m ≡ drop n (joined l))
unfolding consume joined
consume-drop zero l h = (l, refl, refl)
consume-drop (suc n) [] h = absurd (omega arith)
consume-drop (suc n) (b ∷ l) h = elim (Bool-cases (leb (length b) (suc n))) [
  | inl whole ↦
      rw (whole, drop-append_past (suc n) b (joined l) (ground arith))
        (consume-drop (suc n - length b) l (omega (arith, length-append b (joined l), h)))
  | inr part ↦
      rw part
        (drop (suc n) b ∷ l, refl, sym (drop-append_within (suc n) b (joined l) (ground arith)))
]
