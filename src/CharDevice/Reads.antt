-- ===== src/CharDevice/Reads.antt =====
-- The read loop and `read_from_device` as a whole.
use spice.Prelude.{ℕ, ◌≡◌, Option, none, some, List, [], ◌∷◌, ◌++◌}
use spice.CharDevice.State.{DevClient, CharDevice, Call, find}
use spice.CharDevice.Reading.{Reading}
use spice.CharDevice.Delivery.{AllFit, Distinct, Saw}

-- The messages among the device's answers.
abbrev pub messages_of : Option ℕ → List ℕ
messages_of none = []
messages_of (some m) = m ∷ []

abbrev pub messages : List Reading → List ℕ
messages [] = []
messages (r ∷ rs) = messages_of r.msg ++ messages rs

pub record IsReady (d : CharDevice) : Type 0 where
  pub fit : AllFit d.clients
  pub distinct : Distinct d.clients

-- From `d` to `d'` the messages `ms` were sent to the clients, by the calls `cs`.
pub record Sends (d d' : CharDevice) (cs : List Call) (ms : List ℕ) : Type 0 where
  pub ready : IsReady d'
  pub calls : d'.calls ≡ d.calls ++ cs
  pub gone : (c : ℕ) → find c d.clients ≡ none → find c d'.clients ≡ none
  pub present :
      (c : ℕ) (x : DevClient)
      → find c d.clients ≡ some x
      → (y : DevClient) × (find c d'.clients ≡ some y) × Saw c x y cs ms

-- The loop reads the first of the answers, some of them, and sends what they hold.
pub record Reads (rs : List Reading) (d d' : CharDevice) : Type 0 where
  pub used : List Reading
  pub unused : List Reading
  pub split : rs ≡ used ++ unused
  pub calls : List Call
  pub sends : Sends d d' calls (messages used)
