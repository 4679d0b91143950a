-- ===== src/Sendfile.antt =====
-- `sendfile_exact` of vibeio/src/io/sendfile.rs, on Linux: through a pipe where the driver does the
-- splices, and by sendfile(2) where it polls. The system's calls are the interface `Splices`, each
-- awaited until it is done.
mod Moving
mod Fill
mod Empty
pub mod Pipe
pub mod Direct
pub mod Agree
pub mod Long
mod Tests
use vibeio.Prelude.{
  ℕ, zero, suc, ◌+◌, ◌-◌, ◌*◌, ◌%◌, ◌^◌, ◌≤◌, ◌<◌, ◌≡◌, arith, ◌⊎◌, Bool, true, false, not, ◌&&◌,
  ◌||◌, Option, none, some, List, [], ◌++◌, Result, ok, err, IoError, length, take, drop, ltb,
  if◌then◌else◌,
}

-- The bytes that are left of the file, those in the pipe and those that the socket has taken, and the
-- calls: `pipe2`, which makes the pipe and the handle of its end for writing, splice(2) from the file
-- into the pipe and from the pipe to the socket, and sendfile(2). Each moves a front of what there is,
-- and moves nothing only where there is nothing or nothing is asked for. The length of a splice is the
-- one in the entry of the ring.
pub record Splices (D : Type 0) : Type 0 where
  pub source : D → List ℕ
  pub pipe : D → List ℕ
  pub sink : D → List ℕ
  pub pipe2 : D → Result (Unit {0}) × D
  pub splice_in : D → ℕ → Result ℕ × D
  pub splice_out : D → ℕ → Result ℕ × D
  pub sendfile : D → ℕ → Result ℕ × D
  pub pipe2_ok : (d : D) → (pipe2 d).0 ≡ ok tt → pipe (pipe2 d).1 ≡ []
  pub pipe2_keeps : (d : D) → (source (pipe2 d).1 ≡ source d) × (sink (pipe2 d).1 ≡ sink d)
  pub splice_in_ok :
      (d : D) (len n : ℕ)
      → (splice_in d len).0 ≡ ok n
      → (n ≤ len)
        × (n ≤ length (source d))
        × (source (splice_in d len).1 ≡ drop n (source d))
        × (pipe (splice_in d len).1 ≡ pipe d ++ take n (source d))
        × (sink (splice_in d len).1 ≡ sink d)
  pub splice_in_end : (d : D) (len : ℕ) → (splice_in d len).0 ≡ ok 0 → (len ≡ 0) ⊎ (source d ≡ [])
  pub splice_in_err :
      (d : D) (len : ℕ) (e : IoError)
      → (splice_in d len).0 ≡ err e
      → (source (splice_in d len).1 ≡ source d)
        × (pipe (splice_in d len).1 ≡ pipe d)
        × (sink (splice_in d len).1 ≡ sink d)
  pub splice_out_ok :
      (d : D) (len n : ℕ)
      → (splice_out d len).0 ≡ ok n
      → (n ≤ len)
        × (n ≤ length (pipe d))
        × (source (splice_out d len).1 ≡ source d)
        × (pipe (splice_out d len).1 ≡ drop n (pipe d))
        × (sink (splice_out d len).1 ≡ sink d ++ take n (pipe d))
  pub splice_out_end : (d : D) (len : ℕ) → (splice_out d len).0 ≡ ok 0 → (len ≡ 0) ⊎ (pipe d ≡ [])
  pub splice_out_err :
      (d : D) (len : ℕ) (e : IoError)
      → (splice_out d len).0 ≡ err e
      → (source (splice_out d len).1 ≡ source d)
        × (pipe (splice_out d len).1 ≡ pipe d)
        × (sink (splice_out d len).1 ≡ sink d)
  pub sendfile_ok :
      (d : D) (len n : ℕ)
      → (sendfile d len).0 ≡ ok n
      → (n ≤ len)
        × (n ≤ length (source d))
        × (source (sendfile d len).1 ≡ drop n (source d))
        × (sink (sendfile d len).1 ≡ sink d ++ take n (source d))
  pub sendfile_end : (d : D) (len : ℕ) → (sendfile d len).0 ≡ ok 0 → (len ≡ 0) ⊎ (source d ≡ [])
  pub sendfile_err :
      (d : D) (len : ℕ) (e : IoError)
      → (sendfile d len).0 ≡ err e
      → (source (sendfile d len).1 ≡ source d) × (sink (sendfile d len).1 ≡ sink d)

-- `len as u32` of the entry of a `SpliceOp`, by which a driver that does completions splices.
unfoldable pub splice_len : ℕ → ℕ
splice_len len = len % 2 ^ 32

pub splice_len_le : (len : ℕ) → splice_len len ≤ len
unfolding splice_len
splice_len_le len = omega arith

pub splice_len_short : (len : ℕ) → len < 2 ^ 32 → splice_len len ≡ len
unfolding splice_len
splice_len_short len h = omega arith

-- Whether the loop through the pipe goes on.
abbrev pub goes_on : ℕ → ℕ → ℕ → Bool → Bool
goes_on len from to eof = (ltb from len && not eof) || ltb to from

module _ {D : Type 0} ⦃splices : Splices D⦄ where
  -- The first half of a round: `total_from_file` and `file_eof`.
  unfoldable pub fill : D → ℕ → ℕ → Bool → Result (ℕ × Bool) × D
  fill d len from eof =
      let spliced = splices.splice_in d (splice_len (len - from)) in
      if not eof && ltb 0 (len - from)
      then elim spliced.0 [
        | err e ↦ (err e, spliced.1)
        | ok zero ↦ (ok (from, true), spliced.1)
        | ok (suc n) ↦ (ok (from + suc n, eof), spliced.1)
      ]
      else (ok (from, eof), d)

  -- The second half: what goes to the socket, or none where the loop is left.
  unfoldable pub empty : D → ℕ → Result (Option ℕ) × D
  empty d len =
      let spliced = splices.splice_out d (splice_len len) in
      if ltb 0 len
      then elim spliced.0 [
        | err e ↦ (err e, spliced.1)
        | ok zero ↦ (ok none, spliced.1)
        | ok (suc n) ↦ (ok (some (suc n)), spliced.1)
      ]
      else (ok (some 0), d)

  -- The loop of `sendfile_exact_completion`; nothing where the fuel is used up.
  unfoldable pub completion_loop : ℕ → D → ℕ → ℕ → ℕ → Bool → Option (Result ℕ × D)
  completion_loop zero d len from to eof = none
  completion_loop (suc fuel) d len from to eof =
      let filled = fill d len from eof in
      if goes_on len from to eof
      then elim filled.0 [
        | err e ↦ some (err e, filled.1)
        | ok progress ↦
            let emptied = empty filled.1 (progress.0 - to) in
            elim emptied.0 [
              | err e ↦ some (err e, emptied.1)
              | ok none ↦ some (ok to, emptied.1)
              | ok (some n) ↦ completion_loop fuel emptied.1 len progress.0 (to + n) progress.1
            ]
      ]
      else some (ok to, d)

  -- A round moves a byte into the pipe or out of it, or finds the end of the file.
  unfoldable pub sendfile_exact_completion : D → ℕ → Option (Result ℕ × D)
  sendfile_exact_completion d len =
      let piped = splices.pipe2 d in
      elim piped.0 [
        | err e ↦ some (err e, piped.1)
        | ok _ ↦ completion_loop (2 * len + 2) piped.1 len 0 0 false
      ]

  -- The loop of `sendfile_exact_poll`; nothing where the fuel is used up.
  unfoldable pub sendfile_loop : ℕ → D → ℕ → ℕ → Option (Result ℕ × D)
  sendfile_loop zero d len total = none
  sendfile_loop (suc fuel) d len total =
      let sent = splices.sendfile d (len - total) in
      if ltb total len
      then elim sent.0 [
        | err e ↦ some (err e, sent.1)
        | ok zero ↦ some (ok total, sent.1)
        | ok (suc n) ↦ sendfile_loop fuel sent.1 len (total + suc n)
      ]
      else some (ok total, d)

  -- A round sends a byte or more.
  unfoldable pub sendfile_exact_poll : D → ℕ → Option (Result ℕ × D)
  sendfile_exact_poll d len = sendfile_loop (suc len) d len 0

  -- `uses_completion` is whether the socket's driver does completions.
  unfoldable pub sendfile_exact : Bool → D → ℕ → Option (Result ℕ × D)
  sendfile_exact true d len = sendfile_exact_completion d len
  sendfile_exact false d len = sendfile_exact_poll d len

  -- What a call answers, of a file of some bytes to a socket that has taken some: the socket has a
  -- front of the file's bytes after them, and a success is of as many as were asked for or as there
  -- are.
  unfoldable pub IsSent : List ℕ → List ℕ → ℕ → Result ℕ × D → Type 0
  IsSent bytes taken len out =
      (sent : List ℕ) × ((rest : List ℕ) × (sent ++ rest ≡ bytes)
        × (splices.sink out.1 ≡ taken ++ sent)
        × (length sent ≤ len)
        × ((n : ℕ) → out.0 ≡ ok n → (n ≡ length sent) × ((n ≡ len) ⊎ (n ≡ length bytes))))
