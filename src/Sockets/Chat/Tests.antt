-- ===== src/Sockets/Chat/Tests.antt =====
-- The table of clients at concrete inputs.
use cs_primer.Prelude.{ℕ, ◌+◌, ◌<◌, ◌≡◌, leb, if◌then◌else◌, refl, arith, [], ◌∷◌}
use cs_primer.Posix.{done}
use cs_primer.Posix.Sample.{sample}
use cs_primer.Sockets.Chat.{Clients, add_client, remove_client, send_msg}
use cs_primer.Sockets.Chat.Table.{add_client_last, remove_client_slots}
use cs_primer.Sockets.Chat.Send.{addressees, others, send_msg-addressees}

-- The descriptors 5, 6 and 7.
abbrev three : Clients
three = record { clnt_cnt = 3; vec = λ i. i + 5 }

-- When the client on descriptor 5 has gone, the table still holds 5, and has lost 6.
first_gone : let s = remove_client 5 three in (s.clnt_cnt ≡ 2) × (s.vec 0 ≡ 5) × (s.vec 1 ≡ 7)
unfolding remove_client
first_gone = (refl, refl, refl)

add_client_last_example :
    let s' = add_client 8 three in
    (s'.clnt_cnt ≡ 4) × (s'.vec 3 ≡ 8) × ((j : ℕ) → j < 3 → s'.vec j ≡ j + 5)
add_client_last_example = add_client_last 8 three

remove_client_slots_example :
    let s' = remove_client 5 three in
    (s'.clnt_cnt + 1 ≡ 3)
    × ((j : ℕ) → j < s'.clnt_cnt → s'.vec j ≡ (if leb j 0 then j + 5 else (j + 1) + 5))
remove_client_slots_example =
    remove_client_slots 5 0 three (omega arith) refl (λ j h. absurd (omega arith))

send_msg-addressees_example :
    let (r, l') = send_msg (1 ∷ []) 1 6 three (sample []) [] in
    (r ≡ done tt) × (addressees l' ≡ others 3 0 6 (λ i. i + 5))
unfolding addressees
send_msg-addressees_example = send_msg-addressees (1 ∷ []) 1 6 three (sample []) []
