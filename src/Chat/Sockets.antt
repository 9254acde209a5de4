-- ===== src/Chat/Sockets.antt =====
-- A device has one connection of `ConnectionManager`, its latest.
use rustdesk_managed_directo.Common.{
  ℕ, ◌≡◌, ◌≢◌, refl, true, false, some, List, [], ◌∷◌, ◌==◌, arith, select, find_where,
}
use rustdesk_managed_directo.Chat.Connections.{
  Connection, connected, drop_connection, connect, disconnect,
}

find_dropped :
    (device other : ℕ) (cs : List Connection)
    → device ≢ other
    → find_where (λ c. c.device_id == other) (drop_connection device cs)
      ≡ find_where (λ c. c.device_id == other) cs
unfolding drop_connection select find_where
find_dropped device other [] apart = refl
find_dropped device other (c ∷ cs) apart = ground (arith, apart, find_dropped device other cs)

connected-own :
    (device socket : ℕ) (cs : List Connection)
    → connected device (connect device socket cs) ≡ some socket
unfolding connected connect find_where
connected-own device socket cs =
    let own : (device == device) ≡ true = ground arith in rw (connected, own) refl

connected-other :
    (device socket other : ℕ) (cs : List Connection)
    → device ≢ other
    → connected other (connect device socket cs) ≡ connected other cs
unfolding connected connect find_where
connected-other device socket other cs apart =
    let e : (device == other) ≡ false = ground (arith, apart) in
    rw (e, connected, find_dropped device other cs apart) refl

disconnect-other_socket :
    (device socket old : ℕ) (cs : List Connection)
    → connected device cs ≡ some socket
    → old ≢ socket
    → disconnect device old cs ≡ cs
unfolding disconnect
disconnect-other_socket device socket old cs e apart =
    let f : (socket == old) ≡ false = ground (arith, apart) in rw (disconnect, e, f) refl

-- After a device connects again, the end of its earlier socket does not take it off the list: it is
-- reached at the new socket, and every other device where it was.
pub disconnect-connect :
    (device socket old other : ℕ) (cs : List Connection)
    → old ≢ socket
    → device ≢ other
    → (connected device (disconnect device old (connect device socket cs)) ≡ some socket)
      × (connected other (disconnect device old (connect device socket cs)) ≡ connected other cs)
disconnect-connect device socket old other cs stale apart =
    rw
      (disconnect-other_socket device socket old (connect device socket cs)
        (connected-own device socket cs) stale)
      (connected-own device socket cs, connected-other device socket other cs apart)
