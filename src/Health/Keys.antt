-- ===== src/Health/Keys.antt =====
-- The key of a heartbeat gives the ID of its worker back.
use forge_labs.Base.{
  ℕ, ◌+◌, ◌-◌, ◌≡◌, refl, sym, ap, ◌∙◌, arith, true, false, List, [], ◌∷◌, ◌++◌, length, take, drop,
  reverse, length-append, take-append, is_empty, has_prefix, ltb, Str,
}
use mathlib.Core.List.{append-nil, append_assoc}
use forge_labs.Health.{key_prefix, key_suffix, heartbeat_key, ends_with, id_of, worker_id_from_key}

reverse-append : {A : Type 0} (xs ys : List A) → reverse (xs ++ ys) ≡ reverse ys ++ reverse xs
reverse-append [] ys = sym (append-nil (reverse ys))
reverse-append (x ∷ xs) ys =
    ap (λ l. l ++ x ∷ []) (reverse-append xs ys) ∙ append_assoc (reverse ys) (reverse xs) (x ∷ [])

take_all : {A : Type 0} (xs : List A) → take (length xs) xs ≡ xs
take_all [] = refl
take_all (x ∷ xs) = ap (λ l. x ∷ l) (take_all xs)

take_first : {A : Type 0} (xs ys : List A) → take (length xs) (xs ++ ys) ≡ xs
take_first xs ys = take-append (length xs) xs ys (omega arith) ∙ take_all xs

heartbeat_key-ends : (id : Str) → ends_with key_suffix (heartbeat_key id) ≡ true
unfolding has_prefix
heartbeat_key-ends id =
    ap (has_prefix (reverse key_suffix)) (reverse-append (key_prefix ++ id) key_suffix)

length-heartbeat_key : (id : Str) → length (heartbeat_key id) ≡ 17 + length id
length-heartbeat_key id = omega (arith, length-append id key_suffix)

worker_id_from_key-found :
    (key id : Str)
    → has_prefix key_prefix key ≡ true
    → ends_with key_suffix key ≡ true
    → ltb (length key) 17 ≡ false
    → take (length key - 17) (drop 7 key) ≡ id
    → is_empty id ≡ false
    → worker_id_from_key key ≡ id_of id
unfolding worker_id_from_key
worker_id_from_key-found key id p q l e h = rw (p, q, l, e, h) refl

not_short : (n k : ℕ) → k ≡ 17 + n → ltb k 17 ≡ false
not_short n k e = ground arith

rest : (n k : ℕ) → k ≡ 17 + n → k - 17 ≡ n
rest n k e = omega arith

-- The ID of a worker, if it is not empty, is found in the key of its heartbeat.
pub worker_id_from_key-heartbeat_key :
    (id : Str) → is_empty id ≡ false → worker_id_from_key (heartbeat_key id) ≡ id_of id
unfolding has_prefix
worker_id_from_key-heartbeat_key id h =
    worker_id_from_key-found (heartbeat_key id) id refl (heartbeat_key-ends id)
      (not_short (length id) (length (heartbeat_key id)) (length-heartbeat_key id))
      (ap (λ n. take n (id ++ key_suffix))
          (rest (length id) (length (heartbeat_key id)) (length-heartbeat_key id))
        ∙ take_first id key_suffix)
      h
