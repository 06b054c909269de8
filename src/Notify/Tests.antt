-- ===== src/Notify/Tests.antt =====
-- Three notifications to a port with three send-once rights.
use sock_fuzzer.Common.{List, [], ◌∷◌, ◌≡◌, arith, if◌then◌else◌, ◌==◌}
use sock_fuzzer.Notify.{Ports, Notice, port_destroyed, send_once, dead_name}
use sock_fuzzer.Notify.Laws.{times, notify_all, notify_all-counts}

abbrev three_rights : Ports
three_rights = record { ip_sorights = λ port. if port == 7 then 3 else 0; released = [] }

abbrev three_notices : List Notice
three_notices = port_destroyed 7 9 ∷ send_once 7 ∷ dead_name 7 40 ∷ []

notify_all-counts_example :
    ((notify_all three_notices three_rights).ip_sorights 7 ≡ 0)
    × (times 7 (notify_all three_notices three_rights).released ≡ 3)
notify_all-counts_example =
    notify_all-counts 7 three_notices three_rights (omega arith) (omega arith)
