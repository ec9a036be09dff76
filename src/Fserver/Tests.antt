-- ===== src/Fserver/Tests.antt =====
-- fserver and its generators: the theorems on small inputs.
use my_cluster.Common.{
  ◌≤◌, ◌*◌, ℕ, ◌+◌, ◌*◌, true, List, [], ◌∷◌, ◌≡◌, ◌≢◌, refl, some, arith, pos, lookup, nat_eq,
  insert,
}
use my_cluster.Fserver.Delays.{loops}
use my_cluster.Fserver.Delays.Waits.{
  Event, later, passes, ran, delay_step, delay_run, no_delays, Few,
}
use my_cluster.Fserver.Delays.Sent.{delayed, times_sent, delay_run-not_early}
use my_cluster.Ids.{uuid, session, uuid_distinct, next_uuid, next_session}
use my_cluster.Fnet.Connection.{new_connection, set_property}
use my_cluster.Fnet.Connection.Life.{stops}
use my_cluster.Fserver.{get, add, new_server, is_full, accept, handle_connection, start, start_at}
use my_cluster.Fserver.Limit.{ServerEvent, accepts, starts, calls_on, serve, serve_one, serve-full}
use my_cluster.Fserver.Registry.{session_of, serve-get}

third_uuid : uuid 2 ≡ 3
unfolding uuid next_uuid
third_uuid = refl

third_session : session 2 ≡ 3
unfolding session next_session
third_session = refl

uuid_distinct_example : uuid 0 ≢ uuid 4294967295
uuid_distinct_example = uuid_distinct 0 4294967295 (omega arith) (omega arith)

-- A server for one connection, with that connection.
abbrev first_events : List ServerEvent
first_events = accepts (pos 5) ∷ starts 0 ∷ []

first_found : get 1 (serve (new_server (pos 1)) first_events).connection_mgr ≡ some 0
unfolding serve serve_one accept handle_connection start start_at add get lookup insert new_server
    new_connection set_property
first_found = refl

first_is_full : is_full (serve (new_server (pos 1)) first_events) ≡ true
unfolding serve serve_one accept handle_connection start start_at add get lookup insert new_server
    new_connection set_property
first_is_full = refl

serve-get_example : session_of (lookup 0 (serve (new_server (pos 1)) first_events).heap) ≡ some 1
serve-get_example = serve-get (pos 1) first_events 1 0 first_found

serve-full_example :
    (is_full
        (serve (serve (new_server (pos 1)) first_events) (calls_on 0 stops ∷ accepts (pos 9) ∷ []))
      ≡ true)
    × ((serve
          (serve (new_server (pos 1)) first_events)
          (calls_on 0 stops ∷ accepts (pos 9) ∷ [])).allocated
        ≡ (serve (new_server (pos 1)) first_events).allocated)
serve-full_example =
    serve-full (serve (new_server (pos 1)) first_events) (calls_on 0 stops ∷ accepts (pos 9) ∷ [])
      first_is_full

abbrev calls_before : List (Event ℕ)
calls_before = later 3 8 ∷ passes 1 ∷ []

abbrev events_after : List (Event ℕ)
events_after = ran 1 ∷ passes 5 ∷ ran 0 ∷ ran 1 ∷ ran 1 ∷ []

delay_run-not_early_example :
    let s = delay_run calls_before no_delays in
    let s' = delay_run events_after (delay_step (delayed loops 5 7) s) in
    Few loops (times_sent s.next s'.time_chan)
    × (s.now + times_sent s.next s'.time_chan * 5 ≤ s'.now)
delay_run-not_early_example = delay_run-not_early calls_before events_after loops 5 7
