-- ===== src/Rpc/Choice.antt =====
-- Which server a client turns to.
use mathlib.Core.Path.{subst}
use hath_rust.Prelude.{
  ℕ, zero, suc, ◌+◌, ◌%◌, ◌≤◌, ◌<◌, ◌≡◌, ◌≢◌, ◌⊎◌, inl, inr, refl, sym, ap, ◌∙◌, false, List, [],
  ◌∷◌, some, Bytes, bytes_eq, bytes_eq_iff, bytes_eq→eq, length, leb, Bool-cases, arith,
}
use hath_rust.Rpc.Servers.{RpcClient, get_elem?, last_or, init, swap_remove, change_server}

-- `x` is one of the list's elements.
abbrev pub Among : Bytes → List Bytes → Type 0
Among x [] = ⊥
Among x (y ∷ ys) = (y ≡ x) ⊎ Among x ys

get_elem?-Among :
    (xs : List Bytes) (i : ℕ) → i < length xs → (x : Bytes) × (get_elem? xs i ≡ some x) × Among x xs
get_elem?-Among [] i h = absurd (omega arith)
get_elem?-Among (x ∷ xs) zero h = (x, refl, inl refl)
get_elem?-Among (x ∷ xs) (suc i) h =
    let (y, e, m) = get_elem?-Among xs i (omega arith) in (y, e, inr m)

last_or-Among : (y : Bytes) (xs : List Bytes) → Among (last_or y xs) (y ∷ xs)
unfolding last_or
last_or-Among y [] = inl refl
last_or-Among y (x ∷ xs) = inr (last_or-Among x xs)

init-Among : (x : Bytes) (ys : List Bytes) → Among x (init ys) → Among x ys
unfolding init
init-Among x [] m = m
init-Among x (y ∷ []) m = elim m [ ]
init-Among x (y ∷ z ∷ ys) (inl e) = inl e
init-Among x (y ∷ z ∷ ys) (inr m) = inr (init-Among x (z ∷ ys) m)

-- No element comes twice.
abbrev pub IsDistinct : List Bytes → Type 0
IsDistinct [] = Unit
IsDistinct (x ∷ xs) = (¬ Among x xs) × IsDistinct xs

-- What is left is in the list, and is not the server that was removed.
abbrev Other : Bytes → Bytes → List Bytes → Type 0
Other server x ys = Among x ys × (x ≢ server)

swap_remove-Other :
    (server x : Bytes) (ys : List Bytes)
    → IsDistinct ys
    → Among x (swap_remove server ys)
    → Other server x ys
unfolding swap_remove
swap_remove-Other server x [] d m = elim m [ ]
swap_remove-Other server x (y ∷ []) d m = elim (Bool-cases (bytes_eq y server)) [
  | inl e ↦ absurd (rw e at m)
  | inr e ↦ ground (arith, bytes_eq_iff y server, m)
]
swap_remove-Other server x (y ∷ z ∷ ys) d m = elim (Bool-cases (bytes_eq y server)) [
  | inl e ↦
      let same : y ≡ server = bytes_eq→eq y server e in
      let kept : Among x (z ∷ ys) = moved (rw e at m) in
      (inr kept, λ q. d.0 (subst (λ t. Among t (z ∷ ys)) (q ∙ sym same) kept))
  | inr e ↦ stays (swap_remove-Other server x (z ∷ ys) d.1) e (rw e at m)
]
  where
    moved : Among x (last_or z ys ∷ init (z ∷ ys)) → Among x (z ∷ ys)
    moved (inl q) = subst (λ t. Among t (z ∷ ys)) q (last_or-Among z ys)
    moved (inr n) = init-Among x (z ∷ ys) n

    stays :
        (Among x (swap_remove server (z ∷ ys)) → Other server x (z ∷ ys))
        → bytes_eq y server ≡ false
        → Among x (y ∷ swap_remove server (z ∷ ys))
        → Other server x (y ∷ z ∷ ys)
    stays ih e (inl q) = (inl q, ground (arith, bytes_eq_iff y server, q, e))
    stays ih e (inr n) = let o = ih n in (inr o.0, o.1)

length-init : (x : Bytes) (xs : List Bytes) → suc (length (init (x ∷ xs))) ≡ length (x ∷ xs)
unfolding init
length-init x [] = refl
length-init x (y ∷ xs) = ap suc (length-init y xs)

length-swap_remove :
    (server : Bytes) (ys : List Bytes) → length ys ≤ length (swap_remove server ys) + 1
unfolding swap_remove
length-swap_remove server [] = omega arith
length-swap_remove server (y ∷ []) = ground arith
length-swap_remove server (y ∷ z ∷ ys) =
    ground (arith, length-swap_remove server (z ∷ ys), length-init z ys)

-- With two servers or more, all different, a client that changes its server moves to another one
-- of them, whichever the random choice is.
pub change_server_moves :
    (pick : ℕ) (client : RpcClient)
    → IsDistinct client.rpc_servers
    → 2 ≤ length client.rpc_servers
    → Among (change_server pick client).host client.rpc_servers
      × ((change_server pick client).host ≢ client.host)
unfolding change_server
change_server_moves pick client d two =
    let left = swap_remove client.host client.rpc_servers in
    let some_left : 0 < length left =
      omega (arith, length-swap_remove client.host client.rpc_servers) in
    let (x, e, m) = get_elem?-Among left (pick % length left) (omega arith) in
    let o = swap_remove-Other client.host x client.rpc_servers d m in
    let many : leb (length client.rpc_servers) 1 ≡ false = ground arith in rw (many, e) o
