-- ===== src/Identity/Tests/Agreement.antt =====
-- The collection in memory does what is relied on, and the agreement of two pods on it.
use ta2mongo.Prelude.{
  ℕ, suc, ◌≡◌, refl, sym, ap, ◌∙◌, String, Bool, true, false, ◌&&◌, ◌||◌, List, [], ◌∷◌, ◌++◌, any,
  ok, err, ◌==◌, eq_iff, arith, Bool-cases, Result-cases, inl, inr, if◌then◌else◌,
}
use ta2mongo.Prelude.Int.{ℤ, pos, eq_ℤ, eq_ℤ_iff}
use ta2mongo.Identity.Mapping.{IdMapping, Driver}
use ta2mongo.Identity.Memory.{
  Memory, memory, find, has_account, has_distinct, has_user, change, add_to_set, is_unbound,
}
use ta2mongo.Identity.Resolver.{Resolver, is_set, load}
use ta2mongo.Identity.Resolve.{resolve_from_db, resolve_with_both, resolve}
use ta2mongo.Identity.Agreement.{Documented, IsFaithful}
use ta2mongo.Identity.Agreement.Pods.{resolve-Post, resolve-agrees}
use ta2mongo.Identity.Tests.{found_account, pod}

-- The document is the first one with its account; since the index is unique, there is no other.
abbrev is_first : List IdMapping → IdMapping → Bool
is_first rows r =
    if is_set r.account_id
    then elim (find (has_account r.account_id) rows) [
      | ok m ↦ eq_ℤ m.user_id r.user_id
      | err e ↦ false
    ]
    else true

abbrev indexed : Driver Memory
indexed = record memory {
  find_distinct = λ d db. (find (λ r. has_distinct d r && is_first db.rows r) db.rows, db);
}

abbrev Bound : String → ℤ → Memory → Type 0
Bound a u db = (m : IdMapping) × (find (has_account a) db.rows ≡ ok m) × (m.user_id ≡ u)

find_test :
    (test : IdMapping → Bool) (rows : List IdMapping) (m : IdMapping)
    → find test rows ≡ ok m
    → test m ≡ true
unfolding find
find_test test [] m h = absurd (ground (arith, h))
find_test test (r ∷ rows) m h = elim (Bool-cases (test r)) [
  | inl t ↦ let same : r ≡ m = ground (arith, t, h) in ap test (sym same) ∙ t
  | inr t ↦ find_test test rows m (ground (arith, t, h))
]

-- What is found stays found when documents follow.
find-append :
    (test : IdMapping → Bool) (rows : List IdMapping) (n m : IdMapping)
    → find test rows ≡ ok m
    → find test (rows ++ n ∷ []) ≡ ok m
unfolding find
find-append test [] n m h = absurd (ground (arith, h))
find-append test (r ∷ rows) n m h = elim (Bool-cases (test r)) [
  | inl t ↦ ground (arith, t, h)
  | inr t ↦ let ih = find-append test rows n m (ground (arith, t, h)) in ground (arith, t, ih)
]

find-new :
    (u : ℤ) (m : IdMapping) (rows : List IdMapping)
    → is_set m.account_id ≡ true
    → any (λ r. has_user u r || has_account m.account_id r) rows ≡ false
    → find (has_account m.account_id) (rows ++ m ∷ []) ≡ ok m
unfolding find
find-new u m [] s h =
    let own : m.account_id == m.account_id ≡ true = (eq_iff m.account_id m.account_id).1 refl in
    ground (arith, s, own)
find-new u m (r ∷ rows) s h =
    let ih = find-new u m rows s (ground (arith, h)) in
    let other : has_account m.account_id r ≡ false = ground (arith, h) in ground (arith, other, ih)

find-change :
    (test t : IdMapping → Bool) (f : IdMapping → IdMapping) (rows : List IdMapping) (m : IdMapping)
    → ((r : IdMapping) → test r ≡ true → t (f r) ≡ t r)
    → ((r : IdMapping) → (f r).user_id ≡ r.user_id)
    → find t rows ≡ ok m
    → (n : IdMapping) × (find t (change test f rows) ≡ ok n) × (n.user_id ≡ m.user_id)
unfolding find change
find-change test t f [] m same user h = absurd (ground (arith, h))
find-change test t f (r ∷ rows) m same user h = elim (Bool-cases (test r)) [
  | inl c ↦ elim (Bool-cases (t r)) [
    | inl k ↦
        let first : r ≡ m = ground (arith, k, h) in
        let still = same r c ∙ k in
        (f r, ground (arith, c, still), user r ∙ ap (λ (x : IdMapping). x.user_id) first)
    | inr k ↦ let still = same r c ∙ k in (m, ground (arith, c, still, k, h), refl)
  ]
  | inr c ↦ elim (Bool-cases (t r)) [
    | inl k ↦ (m, ground (arith, c, k, h), refl)
    | inr k ↦
        let (n, e, u) = find-change test t f rows m same user (ground (arith, k, h)) in
        (n, ground (arith, c, k, e), u)
  ]
]

find-set :
    (u : ℤ) (a : String) (rows : List IdMapping)
    → is_set a ≡ true
    → any (is_unbound u) rows ≡ true
    → any (has_account a) rows ≡ false
    → (m : IdMapping) × (find
          (has_account a)
          (change (is_unbound u) (λ r. record r { account_id = a }) rows)
        ≡ ok m)
      × (m.user_id ≡ u)
unfolding find change
find-set u a [] s h k = absurd (ground (arith, h))
find-set u a (r ∷ rows) s h k = elim (Bool-cases (is_unbound u r)) [
  | inl c ↦
      let own : a == a ≡ true = (eq_iff a a).1 refl in
      let user : eq_ℤ r.user_id u ≡ true = ground (arith, c) in
      (record r { account_id = a }, ground (arith, c, s, own), (eq_ℤ_iff r.user_id u).0 user)
  | inr c ↦
      let (m, e, user) = find-set u a rows s (ground (arith, c, h)) (ground (arith, k)) in
      let other : has_account a r ≡ false = ground (arith, k) in
      (m, ground (arith, c, other, e), user)
]

any-found :
    (t : IdMapping → Bool) (rows : List IdMapping) (m : IdMapping)
    → find t rows ≡ ok m
    → any t rows ≡ true
unfolding find
any-found t [] m h = absurd (ground (arith, h))
any-found t (r ∷ rows) m h = elim (Bool-cases (t r)) [
  | inl k ↦ ground (arith, k)
  | inr k ↦ let ih = any-found t rows m (ground (arith, k, h)) in ground (arith, k, ih)
]

first_bound :
    (rows : List IdMapping) (m : IdMapping)
    → is_set m.account_id ≡ true
    → is_first rows m ≡ true
    → (n : IdMapping) × (find (has_account m.account_id) rows ≡ ok n) × (n.user_id ≡ m.user_id)
first_bound rows m s h = elim (Result-cases (find (has_account m.account_id) rows)) [
  | inl (n, e) ↦ (n, e, (eq_ℤ_iff n.user_id m.user_id).0 (ground (arith, h, s, e)))
  | inr (cause, e) ↦ absurd (ground (arith, h, s, e))
]

add-account : (b d : String) (r : IdMapping) → has_account b (add_to_set d r) ≡ has_account b r
add-account b d r = ground arith

add-user : (d : String) (r : IdMapping) → (add_to_set d r).user_id ≡ r.user_id
add-user d r = ground arith

-- Setting the account of an unbound document does not change whether it has another account.
set-account :
    (a b : String) (u : ℤ) (r : IdMapping)
    → (a == b ≡ false)
    → is_unbound u r ≡ true
    → has_account b (record r { account_id = a }) ≡ has_account b r
set-account a b u r h c =
    let e : r.account_id ≡ "" = (eq_iff r.account_id "").0 (ground (arith, c)) in
    let unset : has_account b r ≡ false = elim (Bool-cases (b == "")) [
      | inl z ↦ ground (arith, z)
      | inr z ↦ elim (Bool-cases (r.account_id == b)) [
        | inr y ↦ ground (arith, y)
        | inl y ↦
            let same : b == "" ≡ true = (eq_iff b "").1 (sym ((eq_iff r.account_id b).0 y) ∙ e) in
            absurd (ground (arith, same, z))
      ]
    ] in
    ground (arith, h, unset)

insert-keeps :
    (b : String) (v : ℤ) (m : IdMapping) (db : Memory)
    → Bound b v db
    → Bound b v (indexed.insert m db).1
insert-keeps b v m db (n, e, u) =
    elim (Bool-cases (any (λ r. has_user m.user_id r || has_account m.account_id r) db.rows)) [
      | inl c ↦ rw c (n, e, u)
      | inr c ↦ rw c (n, find-append (has_account b) db.rows m n e, u)
    ]

set_account-keeps :
    (b : String) (v : ℤ) (u : ℤ) (a : String) (db : Memory)
    → Bound b v db
    → Bound b v (indexed.set_account u a db).1
set_account-keeps b v u a db (n, e, w) = elim (Bool-cases (any (is_unbound u) db.rows)) [
  | inr c ↦ rw c (n, e, w)
  | inl c ↦ elim (Bool-cases (any (has_account a) db.rows)) [
    | inl k ↦ rw (c, k) (n, e, w)
    | inr k ↦
        let other : a == b ≡ false = elim (Bool-cases (a == b)) [
          | inr o ↦ o
          | inl o ↦
              let taken = any-found (has_account b) db.rows n e in
              let same : any (has_account a) db.rows ≡ any (has_account b) db.rows =
                ap (λ (x : String). any (has_account x) db.rows) ((eq_iff a b).0 o) in
              absurd (ground (arith, taken, same, k))
        ] in
        let (m, e', w') =
          find-change (is_unbound u) (has_account b) (λ r. record r { account_id = a }) db.rows n
            (λ r c'. set-account a b u r other c') (λ r. refl) e in
        rw (c, k) (m, e', w' ∙ w)
  ]
]

account_set-Bound :
    (u : ℤ) (a : String) (db : Memory) (n : ℕ)
    → is_set a ≡ true
    → (indexed.set_account u a db).0 ≡ ok (suc n)
    → Bound a u (indexed.set_account u a db).1
account_set-Bound u a db n s h = elim (Bool-cases (any (is_unbound u) db.rows)) [
  | inr c ↦ absurd (ground (arith, c, h))
  | inl c ↦ elim (Bool-cases (any (has_account a) db.rows)) [
    | inl k ↦ absurd (ground (arith, c, k, h))
    | inr k ↦ rw (c, k) (find-set u a db.rows s c k)
  ]
]

inserted-Bound :
    (m : IdMapping) (db : Memory)
    → is_set m.account_id ≡ true
    → (indexed.insert m db).0 ≡ ok tt
    → Bound m.account_id m.user_id (indexed.insert m db).1
inserted-Bound m db s h =
    elim (Bool-cases (any (λ r. has_user m.user_id r || has_account m.account_id r) db.rows)) [
      | inl c ↦ absurd (ground (arith, c, h))
      | inr c ↦ rw c (m, find-new m.user_id m db.rows s c, refl)
    ]

indexed-Documented : Documented indexed Bound
indexed-Documented = record {
  one = λ a u v db (m, e, k) (n, e', k').
      let same : m ≡ n = ground (arith, e, e') in
      sym k ∙ ap (λ (x : IdMapping). x.user_id) same ∙ k';
  by_account = λ a db m h. (found_account a db.rows m h, (m, h, refl));
  inserted = inserted-Bound;
  account_set = account_set-Bound;
  by_distinct = λ d db m h s.
      first_bound db.rows m s
        (ground (arith, find_test (λ r. has_distinct d r && is_first db.rows r) db.rows m h));
  keeps_find_account = λ b v a db k. k;
  keeps_find_distinct = λ b v d db k. k;
  keeps_insert = insert-keeps;
  keeps_add_distinct = λ b v u d db (n, e, w).
      let (m, e', w') =
        find-change (has_user u) (has_account b) (add_to_set d) db.rows n (λ r _. add-account b d r)
          (λ r. add-user d r) e in
      (m, e', w' ∙ w);
  keeps_set_account = set_account-keeps;
  keeps_next_seq = λ b v db k. k;
}

-- A new account with a distinct id that another account has, on one pod and then on another one.
abbrev fresh : Memory → Resolver Memory
fresh db = record { db = db; account_cache = []; distinct_cache = [] }

fresh-IsFaithful : (db : Memory) → IsFaithful Bound (fresh db)
unfolding load
fresh-IsFaithful db b v h = absurd (ground (arith, h))

abbrev second_pod : Resolver Memory
second_pod = fresh (resolve indexed "y" "d" pod).1.db

resolve-agrees_example : (resolve indexed "y" "f" second_pod).0 ≡ ok (pos 8)
unfolding resolve resolve_from_db find resolve_with_both
resolve-agrees_example =
    resolve-agrees indexed Bound indexed-Documented "y" "d" "f" pod second_pod (pos 8) (pos 8) refl
      (fresh-IsFaithful pod.db) (fresh-IsFaithful second_pod.db)
      (resolve-Post indexed Bound indexed-Documented "y" "f" second_pod refl
        (fresh-IsFaithful second_pod.db)).extends
      refl refl
