-- ===== src/Handle/OverMio.antt =====
-- Handles over the mio driver.
use vibeio.Prelude.{ℕ, ◌≡◌, false, none, some, inl, inr, ok, err, IoError, not_found, arith}
use vibeio.Slab.{Slab}
use vibeio.Driver.Mio.{Registry}
use vibeio.Prelude.{Result-cases}
use vibeio.Driver.Steps.{IsUnchanged, register_fails}
use vibeio.Driver.Effects.{
  fresh, register_vacant, get-register, watch-register, get-deregister, watch-deregister,
  submit_unknown,
}
use vibeio.Driver.{Registration, MioDriver, register_handle, deregister_handle, submit_poll}
use vibeio.Handle.{RegistrationMode, Driver, InnerRawHandle, new_with_driver_and_mode, drop}

-- The trait's defaults: the mode is not read, and there are no completions.
instance abbrev pub mio_driver :
    {S K : Type 0} ⦃slab : Slab S Registration⦄ ⦃registry : Registry K⦄ → Driver (MioDriver S K)
mio_driver = record {
  supports_completion = λ d. false;
  register_handle_with_mode = λ d fd interest mode. register_handle d fd interest;
  deregister_handle = λ d token. deregister_handle d token;
}

module _ {S K : Type 0} ⦃slab : Slab S Registration⦄ ⦃registry : Registry K⦄ where
  -- Dropping a handle that was just made leaves every registration and every source as before, where
  -- mio lets the source go.
  pub drop-new :
      (d : MioDriver S K) (fd interest : ℕ) (mode : RegistrationMode) (inner : InnerRawHandle)
      → (new_with_driver_and_mode d fd interest mode).0 ≡ ok inner
      → let d' = (new_with_driver_and_mode d fd interest mode).1 in
        (registry.deregister d'.poll fd).0 ≡ ok tt → IsUnchanged d (drop d' inner)
  unfolding new_with_driver_and_mode drop
  drop-new d fd interest mode inner h released =
      elim (Result-cases (register_handle d fd interest).0) [
        | inr (e, p) ↦ absurd (ground arith)
        | inl (token, p) ↦
            let d' = (register_handle d fd interest).1 in
            let at : slab.get d'.registrations token ≡ some (fresh fd interest) =
              ground (arith, get-register d fd interest token token p) in
            (
              λ j. ground (
                arith,
                register_vacant d fd interest token p,
                get-register d fd interest token j p,
                get-deregister d' token j (fresh fd interest) at,
              ),
              λ j. ground (
                arith,
                register_vacant d fd interest token p,
                watch-register d fd interest token j p,
                watch-deregister d' token j (fresh fd interest) at,
              ),
            )
      ]

  -- A handle whose registration fails takes the registration at token 0 with it, if there is one
  -- and mio lets its source go: that source, which is another handle's, is no longer watched, and
  -- the next `submit_poll` at token 0 fails.
  pub failed_new_drops_token_0 :
      (d : MioDriver S K) (fd interest waker i : ℕ) (mode : RegistrationMode) (e : IoError)
      (r : Registration)
      → (register_handle d fd interest).0 ≡ err e
      → slab.get d.registrations 0 ≡ some r
      → (registry.deregister (register_handle d fd interest).1.poll r.fd).0 ≡ ok tt
      → let d' = (new_with_driver_and_mode d fd interest mode).1 in
        (slab.get d'.registrations 0 ≡ none)
        × (registry.watch d'.poll r.fd ≡ none)
        × ((submit_poll d' 0 waker i).0 ≡ err not_found)
  unfolding new_with_driver_and_mode drop
  failed_new_drops_token_0 d fd interest waker i mode e r h at released =
      let d' = (register_handle d fd interest).1 in
      let (gets, watches) = register_fails d fd interest e h in
      let at' : slab.get d'.registrations 0 ≡ some r = ground (arith, gets 0) in
      let gone : slab.get (deregister_handle d' 0).1.registrations 0 ≡ none =
        ground (arith, get-deregister d' 0 0 r at' released) in
      (
        rw (new_with_driver_and_mode, h) gone,
        ground (arith, watch-deregister d' 0 r.fd r at' released),
        rw (new_with_driver_and_mode, h) (submit_unknown (deregister_handle d' 0).1 0 waker i gone),
      )
