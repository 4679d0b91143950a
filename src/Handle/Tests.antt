-- ===== src/Handle/Tests.antt =====
-- Handles over a mio driver with one source.
use vibeio.Prelude.{◌≡◌, refl, Option, none, some, List, [], ok, err, not_found, os}
use vibeio.Slab.{Slab}
use vibeio.Slab.Slots.{slots}
use vibeio.Driver.Table.{Table, tables}
use vibeio.Driver.Steps.{IsUnchanged}
use vibeio.Driver.{Registration, MioDriver, new, register_handle, submit_poll}
use vibeio.Handle.OverMio.{mio_driver, drop-new, failed_new_drops_token_0}
use vibeio.Handle.{poll, completion, InnerRawHandle, effective_mode, new_with_driver_and_mode, drop}

abbrev Store : Type 0
Store = List (Option Registration)

abbrev table : Table
table = record { sources = λ fd. none; incoming = []; found = [] }

abbrev no_source : MioDriver Store Table
no_source = new table

-- A driver with the descriptor 5 at token 0.
abbrev one_source : MioDriver Store Table
one_source = (register_handle no_source 5 1).1

abbrev handle_5 : InnerRawHandle
handle_5 = record { handle = 5; token = 0; interest = 1; mode = poll }

made : (new_with_driver_and_mode no_source 5 1 completion).0 ≡ ok handle_5
unfolding register_handle new new_with_driver_and_mode effective_mode
made = refl

released :
    (tables.deregister (new_with_driver_and_mode no_source 5 1 completion).1.poll 5).0 ≡ ok tt
unfolding register_handle new new_with_driver_and_mode
released = refl

drop-new_run :
    IsUnchanged no_source (drop (new_with_driver_and_mode no_source 5 1 completion).1 handle_5)
drop-new_run = drop-new no_source 5 1 completion handle_5 made released

-- The descriptor 200 is refused.
refused : (register_handle one_source 200 1).0 ≡ err (os 1)
unfolding register_handle new
refused = refl

at_0 :
    Slab.get slots one_source.registrations 0
    ≡ some (record { fd = 5; waiter = none; interest = some 1 })
unfolding register_handle new
at_0 = refl

lets_go : (tables.deregister (register_handle one_source 200 1).1.poll 5).0 ≡ ok tt
unfolding register_handle new
lets_go = refl

failed_new_drops_token_0_example :
    let d : MioDriver Store Table = (new_with_driver_and_mode one_source 200 1 completion).1 in
    (Slab.get slots d.registrations 0 ≡ none)
    × (tables.watch d.poll 5 ≡ none)
    × ((submit_poll d 0 9 1).0 ≡ err not_found)
failed_new_drops_token_0_example =
    failed_new_drops_token_0 one_source 200 1 9 1 completion (os 1)
      (record { fd = 5; waiter = none; interest = some 1 }) refused at_0 lets_go
