-- ===== src/Driver/Table.antt =====
-- An implementation of `Registry`, which shows that its laws can hold: a registry whose sources are the descriptors below 100, and whose poll finds the events of its list
-- `incoming`.
use vibeio.Prelude.{
  ℕ, ◌≡◌, refl, Option, none, some, List, [], Result, ok, err, IoError, os, ltb, arith, ◌==◌,
  if◌then◌else◌,
}
use vibeio.Driver.Mio.{Registry, polled}

pub record Table : Type 0 where
  pub sources : ℕ → Option (ℕ × ℕ)
  pub incoming : List ℕ
  pub found : List ℕ

abbrev pub set_source : (ℕ → Option (ℕ × ℕ)) → ℕ → Option (ℕ × ℕ) → ℕ → Option (ℕ × ℕ)
set_source sources fd entry j = if fd == j then entry else sources j

abbrev register : Table → ℕ → ℕ → ℕ → Result (Unit {0}) × Table
register k fd token interest =
    if ltb fd 100
    then elim (k.sources fd) [
      | none ↦ (ok tt, record k { sources = set_source k.sources fd (some (token, interest)) })
      | some _ ↦ (err (os 17), k)
    ]
    else (err (os 1), k)

abbrev reregister : Table → ℕ → ℕ → ℕ → Result (Unit {0}) × Table
reregister k fd token interest = elim (k.sources fd) [
  | none ↦ (err (os 2), k)
  | some _ ↦ (ok tt, record k { sources = set_source k.sources fd (some (token, interest)) })
]

abbrev deregister : Table → ℕ → Result (Unit {0}) × Table
deregister k fd = elim (k.sources fd) [
  | none ↦ (err (os 2), k)
  | some _ ↦ (ok tt, record k { sources = set_source k.sources fd none })
]

pub register_new :
    (k : Table) (fd token interest : ℕ)
    → (register k fd token interest).0 ≡ ok tt
    → k.sources fd ≡ none
register_new k fd token interest h = ground arith

pub register_ok :
    (k : Table) (fd token interest j : ℕ)
    → (register k fd token interest).0 ≡ ok tt
    → (register k fd token interest).1.sources j
      ≡ (if fd == j then some (token, interest) else k.sources j)
register_ok k fd token interest j h = ground arith

pub register_err :
    (k : Table) (fd token interest : ℕ) (e : IoError) (j : ℕ)
    → (register k fd token interest).0 ≡ err e
    → (register k fd token interest).1.sources j ≡ k.sources j
register_err k fd token interest e j h = ground arith

pub reregister_ok :
    (k : Table) (fd token interest j : ℕ)
    → (reregister k fd token interest).0 ≡ ok tt
    → (reregister k fd token interest).1.sources j
      ≡ (if fd == j then some (token, interest) else k.sources j)
reregister_ok k fd token interest j h = ground arith

pub reregister_err :
    (k : Table) (fd token interest : ℕ) (e : IoError) (j : ℕ)
    → (reregister k fd token interest).0 ≡ err e
    → (reregister k fd token interest).1.sources j ≡ k.sources j
reregister_err k fd token interest e j h = ground arith

pub deregister_ok :
    (k : Table) (fd j : ℕ)
    → (deregister k fd).0 ≡ ok tt
    → (deregister k fd).1.sources j ≡ (if fd == j then none else k.sources j)
deregister_ok k fd j h = ground arith

pub deregister_err :
    (k : Table) (fd : ℕ) (e : IoError) (j : ℕ)
    → (deregister k fd).0 ≡ err e
    → (deregister k fd).1.sources j ≡ k.sources j
deregister_err k fd e j h = ground arith

instance abbrev pub tables : Registry Table
tables = record {
  watch = λ k. k.sources;
  events = λ k. k.found;
  register = register;
  reregister = reregister;
  deregister = deregister;
  poll = λ k timeout. (polled, record k { incoming = []; found = k.incoming });
  register_new = register_new;
  register_ok = register_ok;
  register_err = register_err;
  reregister_ok = reregister_ok;
  reregister_err = reregister_err;
  deregister_ok = deregister_ok;
  deregister_err = deregister_err;
  watch-poll = λ k timeout j. refl;
}
