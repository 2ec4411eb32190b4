-- ===== src/Irc/Client/Writer.antt =====
-- The write buffer of `IrcClient`: `sendMessage`, `write` and `handleWrite` as the atomic steps that
-- its locks and the exchange of `inWrite_` make of them.
pub mod Order
use suda_gureum.Base.{Bool, true, false, List, [], ◌∷◌, ◌++◌, if◌then◌else◌, Bytes, is_empty}
use suda_gureum.Irc.Client.State.{Writer}

-- The part of `sendMessage` under `bufferWriteLock_`, on the encoded message with its line end.
unfoldable pub push : Bytes → Writer → Writer
push bytes w = record w { buffer_to_write = w.buffer_to_write ++ bytes ∷ [] }

-- `write` when the exchange found `inWrite_` unset.
unfoldable pub write_front : List Bytes → Writer → Writer
write_front [] w = record w { in_write = false }
write_front (message ∷ rest) w =
    if is_empty message
    then record w { buffer_to_write = rest; in_write = false }
    else record w { buffer_to_write = rest; in_write = true; handed = w.handed ++ message ∷ [] }

unfoldable pub write : Writer → Writer
unfolding write_front
write w = if w.in_write then w else write_front w.buffer_to_write w

-- The first line of `handleWrite`.
unfoldable pub completed : Writer → Writer
completed w = record w { in_write = false }
