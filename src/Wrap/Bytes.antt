-- ===== src/Wrap/Bytes.antt =====
-- No byte is lost or passed on twice.
use mathlib.Core.List.{append-nil}
use mathlib.Core.Path.{subst}
use vibeio.Prelude.{
  ℕ, ◌+◌, ◌-◌, ◌≤◌, ◌<◌, ◌≡◌, refl, sym, ap, ◌∙◌, inl, inr, Option, none, some, List, [], ◌++◌,
  Result, ok, err, other, length, take, drop, take_all, min, ltb, arith, take-append-drop,
  length-drop, drop-add, length-take-le, ◌==◌, if◌then◌else◌, Bool-cases, Option-cases,
}
use vibeio.Join.{Poll, ready, pending}
use vibeio.Wrap.{Object, AsyncWrap, Read, pass_on, keep, end_read, run_read, start_read, poll_read}

-- The bytes that have been read and not been passed on.
pub left : Option (List ℕ × ℕ × ℕ) → List ℕ
left none = []
left (some (buf, advanced, n)) = drop advanced buf

unfoldable pub IsFilled : Option (List ℕ × ℕ × ℕ) → Type 0
IsFilled none = Unit {0}
IsFilled (some (buf, advanced, n)) = (length buf ≡ n) × (advanced < n)

-- Passing bytes of a buffer on.
pass_on_lem :
    (buf : List ℕ) (advanced n room : ℕ)
    → length buf ≡ n
    → advanced < n
    → (pass_on buf advanced n room ++ left (keep buf advanced n room) ≡ drop advanced buf)
      × IsFilled (keep buf advanced n room)
unfolding left IsFilled
pass_on_lem buf advanced n room size more =
    let k = min (n - advanced) room in
    elim (Bool-cases (ltb (advanced + k) n)) [
      | inl q ↦ rw q (
        rw (drop-add advanced k buf) (take-append-drop k (drop advanced buf)),
        (size, ground arith),
      )
      | inr q ↦ rw q (
        append-nil (take k (drop advanced buf))
            ∙ take_all k (drop advanced buf) (ground (arith, length-drop advanced buf)),
        tt,
      )
    ]

-- Passing the front of what was just read on.
front_lem :
    (bytes : List ℕ) (k : ℕ)
    → let kept : Option (List ℕ × ℕ × ℕ) =
        if ltb k (length bytes) then some (bytes, k, length bytes) else none in
      (take k bytes ++ left kept ≡ bytes) × IsFilled kept
unfolding left IsFilled
front_lem bytes k = elim (Bool-cases (ltb k (length bytes))) [
  | inl q ↦ rw q (take-append-drop k bytes, (refl, ground arith))
  | inr q ↦ rw q (append-nil (take k bytes) ∙ take_all k bytes (ground arith), tt)
]

-- The bytes of a read that ends.
abbrev pub bytes_of : {T : Type 0} → Poll (Result (List ℕ) × T) → List ℕ
bytes_of pending = []
bytes_of (ready (ok bytes, inner)) = bytes
bytes_of (ready (err e, inner)) = []

module _ {T RF FF : Type 0} where
  -- The buffer holds what it says, and is empty while a read is under way.
  unfoldable pub IsSound : AsyncWrap T RF FF → Type 0
  IsSound w = IsFilled w.read_buf × ((future : RF) → w.read_fut ≡ some future → w.read_buf ≡ none)

  -- What `p` says of a poll of `w` in which `bytes` arrived.
  pub IsKept : AsyncWrap T RF FF → List ℕ → ℕ → Read T RF FF → Type 0
  IsKept w bytes room p =
      (p.filled ++ left p.wrap.read_buf ≡ left w.read_buf ++ bytes)
      × IsSound p.wrap
      × (length p.filled ≤ room)

  end_read_lem :
      (w : AsyncWrap T RF FF) (room : ℕ) (answer : Poll (Result (List ℕ) × T) × RF)
      → w.read_buf ≡ none
      → IsKept w (bytes_of answer.0) room (end_read w room answer)
  unfolding IsKept IsSound IsFilled left end_read
  end_read_lem w room (pending, future) empty =
      (sym (append-nil (left w.read_buf)), (rw empty tt, λ f p. empty), omega arith)
  end_read_lem w room (ready (err e, inner), future) empty =
      (sym (append-nil (left w.read_buf)), (rw empty tt, λ f p. absurd (ground arith)), omega arith)
  end_read_lem w room (ready (ok bytes, inner), future) empty =
      let k = min (length bytes) room in
      let (same, filled) = front_lem bytes k in
      rw empty (same, (filled, λ f p. absurd (ground arith)), omega (arith, length-take-le k bytes))

  -- A poll that passes on what is left over.
  abbrev passed : AsyncWrap T RF FF → List ℕ → ℕ → ℕ → ℕ → Read T RF FF
  passed w buf advanced n room = record {
    answer = ready (ok tt);
    filled = pass_on buf advanced n room;
    wrap = record w { read_buf = keep buf advanced n room };
  }

  passed_lem :
      (w : AsyncWrap T RF FF) (buf : List ℕ) (advanced n room : ℕ)
      → w.read_buf ≡ some (buf, advanced, n)
      → w.read_fut ≡ none
      → IsSound w
      → IsKept w [] room (passed w buf advanced n room)
  unfolding IsKept IsSound IsFilled left
  passed_lem w buf advanced n room q p h =
      let sound : IsFilled (some (buf, advanced, n)) = subst IsFilled q (h.0) in
      let (same, filled) = pass_on_lem buf advanced n room sound.0 sound.1 in
      (
        same ∙ ap left (sym q) ∙ sym (append-nil (left w.read_buf)),
        (filled, λ f t. absurd (ground arith)),
        omega (arith, length-take-le (min (n - advanced) room) (drop advanced buf)),
      )

module _ {T RF FF : Type 0} ⦃object : Object T RF FF⦄ where
  -- The bytes that the object gives during a poll.
  pub arrives : AsyncWrap T RF FF → ℕ → List ℕ
  arrives w room = if room == 0 then [] else elim w.read_fut [
    | some future ↦ bytes_of (object.poll_read_future future).0
    | none ↦ elim w.read_buf [
      | some _ ↦ []
      | none ↦ elim w.inner [
        | none ↦ []
        | some inner ↦ bytes_of (object.poll_read_future (object.read inner)).0
      ]
    ]
  ]

  run_read_lem :
      (w : AsyncWrap T RF FF) (future : RF) (room : ℕ)
      → w.read_buf ≡ none
      → IsKept w (bytes_of (object.poll_read_future future).0) room (run_read w future room)
  unfolding run_read
  run_read_lem w future room empty = end_read_lem w room (object.poll_read_future future) empty

  -- A poll of a read of a sound wrap passes on, in order, bytes that were left over and bytes that
  -- arrive during it, no more than the caller has room for, and keeps the rest, so that no byte is
  -- lost or passed on twice; the wrap stays sound.
  pub poll_read_keeps_bytes :
      (w : AsyncWrap T RF FF) (room : ℕ)
      → IsSound w
      → IsKept w (arrives w room) room (poll_read w room)
  unfolding IsKept IsSound arrives poll_read start_read
  poll_read_keeps_bytes w room h = elim (Bool-cases (room == 0)) [
    | inl full ↦
        let same : poll_read w room ≡ record { answer = ready (ok tt); filled = []; wrap = w } =
          ground arith in
        let got : arrives w room ≡ [] = ground arith in
        rw (same, got) (sym (append-nil (left w.read_buf)), h, omega arith)
    | inr more ↦ elim (Option-cases w.read_fut) [
      | inr (future, p) ↦
          let same : poll_read w room ≡ run_read w future room = ground arith in
          let got : arrives w room ≡ bytes_of (object.poll_read_future future).0 = ground arith in
          rw (same, got) (run_read_lem w future room (h.1 future p))
      | inl p ↦ elim (Option-cases w.read_buf) [
        | inr ((buf, advanced, n), q) ↦
            let same : poll_read w room ≡ passed w buf advanced n room = ground arith in
            let got : arrives w room ≡ [] = ground arith in
            rw (same, got) (passed_lem w buf advanced n room q p h)
        | inl q ↦ elim (Option-cases w.inner) [
          | inl i ↦
              let same : poll_read w room
                  ≡ record { answer = ready (err other); filled = []; wrap = w } =
                ground arith in
              let got : arrives w room ≡ [] = ground arith in
              rw (same, got) (sym (append-nil (left w.read_buf)), h, omega arith)
          | inr (inner, i) ↦
              let busy : AsyncWrap T RF FF = record w { inner = none } in
              let same : poll_read w room ≡ run_read busy (object.read inner) room = ground arith in
              let got : arrives w room ≡ bytes_of (object.poll_read_future (object.read inner)).0 =
                ground arith in
              rw (same, got) (run_read_lem busy (object.read inner) room q)
        ]
      ]
    ]
  ]
