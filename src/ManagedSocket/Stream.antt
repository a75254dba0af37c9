-- ===== src/ManagedSocket/Stream.antt =====
-- adchpp/SocketManager.cpp: what `SocketStream::write` hands to the system of a list of buffers.
use adchubd.Base.{
  ℕ, zero, suc, ◌+◌, ◌-◌, ◌≤◌, ◌≡◌, refl, inl, inr, Bool-cases, leb, sym, ap, ◌∙◌, List, [], ◌∷◌,
  ◌++◌, append-nil, append_assoc, Bytes, ltb, if◌then◌else◌, length, take, drop, length-append,
  append-take-drop, arith,
}
use Prim.Native.Nat.{min}

abbrev pub max_bytes : ℕ
max_bytes = 1024

-- The loop over the first `n` buffers, with `total` bytes gathered.
unfoldable pub gather : ℕ → ℕ → List Bytes → Bytes
gather zero total bufs = []
gather (suc n) total [] = []
gather (suc n) total (b ∷ bufs) =
    let bytes = min (length b) (max_bytes - total) in
    let rest = gather n (total + bytes) bufs in
    if ltb total max_bytes then take bytes b ++ rest else []

-- A single buffer is handed over whole.
unfoldable pub handed : List Bytes → Bytes
handed [] = gather 64 0 []
handed (b ∷ []) = b
handed (b ∷ c ∷ bufs) = gather 64 0 (b ∷ c ∷ bufs)

unfoldable pub joined : List Bytes → Bytes
joined [] = []
joined (b ∷ bufs) = b ++ joined bufs

abbrev pub Prefix : Bytes → Bytes → Type 0
Prefix a b = (rest : Bytes) × (b ≡ a ++ rest)

length-take : {A : Type 0} (n : ℕ) (xs : List A) → n ≤ length xs → length (take n xs) ≡ n
length-take zero xs h = refl
length-take (suc n) [] h = absurd (omega arith)
length-take (suc n) (x ∷ xs) h = ap suc (length-take n xs (omega arith))

take_all : {A : Type 0} (n : ℕ) (xs : List A) → length xs ≤ n → take n xs ≡ xs
take_all zero [] h = refl
take_all zero (x ∷ xs) h = absurd (omega arith)
take_all (suc n) [] h = refl
take_all (suc n) (x ∷ xs) h = ap (◌∷◌ x) (take_all n xs (omega arith))

gather_full : (n total : ℕ) (bufs : List Bytes) → max_bytes ≤ total → gather n total bufs ≡ []
unfolding gather
gather_full zero total bufs h = refl
gather_full (suc n) total [] h = refl
gather_full (suc n) total (b ∷ bufs) h = ground arith

-- A whole buffer, and what is gathered behind it.
Prefix-append : (b s t : Bytes) → Prefix s t → Prefix (b ++ s) (b ++ t)
Prefix-append b s t (rest, p) = (rest, ap (λ (x : Bytes). b ++ x) p ∙ sym (append_assoc b s rest))

-- A buffer that is cut fills what is left, so nothing is gathered behind it.
gather-Prefix : (n total : ℕ) (bufs : List Bytes) → Prefix (gather n total bufs) (joined bufs)
unfolding gather joined
gather-Prefix zero total bufs = (joined bufs, refl)
gather-Prefix (suc n) total [] = ([], refl)
gather-Prefix (suc n) total (b ∷ bufs) = elim (Bool-cases (ltb total max_bytes)) [
  | inr full ↦ rw full (b ++ joined bufs, refl)
  | inl room ↦ rw room (elim (Bool-cases (leb (length b) (max_bytes - total))) [
    | inl fits ↦ rw (take_all (min (length b) (max_bytes - total)) b (ground arith)) (
        Prefix-append b _ (joined bufs)
          (gather-Prefix n (total + min (length b) (max_bytes - total)) bufs))
    | inr over ↦
        let k = min (length b) (max_bytes - total) in
        rw (gather_full n (total + k) bufs (ground arith), append-nil)
          (
            drop k b ++ joined bufs,
            ap (λ (t : Bytes). t ++ joined bufs) (sym (append-take-drop k b))
                ∙ append_assoc (take k b) (drop k b) (joined bufs),
          )
  ])
]

gather-le : (n total : ℕ) (bufs : List Bytes) → length (gather n total bufs) ≤ max_bytes - total
unfolding gather
gather-le zero total bufs = omega arith
gather-le (suc n) total [] = omega arith
gather-le (suc n) total (b ∷ bufs) =
    let k = min (length b) (max_bytes - total) in
    elim (Bool-cases (ltb total max_bytes)) [
      | inr full ↦ rw full (omega arith)
      | inl room ↦ rw room (
          omega (
            arith,
            length-append (take k b) (gather n (total + k) bufs),
            length-take k b (omega arith),
            gather-le n (total + k) bufs,
          ))
    ]

-- The stream is handed the first bytes of the queue.
pub handed-Prefix : (bufs : List Bytes) → Prefix (handed bufs) (joined bufs)
unfolding handed joined
handed-Prefix [] = gather-Prefix 64 0 []
handed-Prefix (b ∷ []) = ([], refl)
handed-Prefix (b ∷ c ∷ bufs) = gather-Prefix 64 0 (b ∷ c ∷ bufs)

-- Of several buffers, at most 1024 bytes are handed over at once.
pub handed-le : (b c : Bytes) (bufs : List Bytes) → length (handed (b ∷ c ∷ bufs)) ≤ max_bytes
unfolding handed
handed-le b c bufs = gather-le 64 0 (b ∷ c ∷ bufs)
