-- ===== src/Sockets/Tests.antt =====
-- Small histories of sockets, and the theorems at concrete ones.
use arcade_launcher_server.Base.{
  ◌≡◌, refl, false, true, none, some, List, [], ◌∷◌, codes, delete_where,
}
use arcade_launcher_server.Calls.{Rings, Ringing, lookup}
use arcade_launcher_server.Calls.Keys.{IsKeyed}
use arcade_launcher_server.Social.Log.{fresh}
use arcade_launcher_server.Devices.{Device}
use arcade_launcher_server.Fixtures.{no_faults}
use arcade_launcher_server.Sockets.{put_conns, sockets_of, register, retain_conns, unregister}
use arcade_launcher_server.Sockets.Registry.{
  Event, opens, closes, run, step, live, of_user, Answers, run-Answers,
}
use arcade_launcher_server.Sockets.Closing.{Gateway, close_socket}
use arcade_launcher_server.Sockets.Departed.{Departed, close-Departed}

abbrev phone : Device
phone = record { id = codes "p1"; name = codes "Phone"; kind = codes "mobile"; version = codes "1" }

-- A phone and a browser of account 1, and a socket of account 2 that has closed.
abbrev opened : List Event
opened = closes 2 2 ∷ opens 1 none ∷ opens 2 none ∷ opens 1 (some phone) ∷ []

run-Answers_example : Answers (run opened) 1 (of_user 1 (live opened))
run-Answers_example = run-Answers opened 1

abbrev ring : Ringing
ring = record { video = true; started_at = 1200 }

abbrev rung : Rings
rung = (1, 2, ring) ∷ (3, 1, ring) ∷ (2, 3, ring) ∷ []

-- Account 1 has one socket left, rings account 2 and is rung by account 3.
abbrev ringing : Gateway
ringing = record {
  hub = run (closes 1 3 ∷ opened);
  chat = record {
    social = record fresh { voice = (1, 2) ∷ []; rings = rung };
    dm_policy = λ u. none;
    messages = [];
    reactions = [];
    attachments = [];
    next_message = 1;
    next_attachment = 1;
  };
  presences = λ u. none;
}

rung-IsKeyed : IsKeyed rung
unfolding lookup
rung-IsKeyed = (refl, (refl, (refl, tt)))

last_one : (unregister 1 1 ringing.hub).0 ≡ true
unfolding unregister run step register retain_conns put_conns sockets_of delete_where
last_one = refl

close-Departed_example : Departed 1 ringing (close_socket false no_faults 1 1 1210 ringing).1
close-Departed_example =
    close-Departed false no_faults 1 1 1210 ringing refl (λ k. refl) rung-IsKeyed last_one
