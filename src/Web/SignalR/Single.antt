-- ===== src/Web/SignalR/Single.antt =====
-- signalRService: how often a message reaches a callback.
use pipeline_azure.Prelude.{ℕ, ◌+◌, ◌≡◌, Bool, true, false, some, String, List, [], ◌∷◌, nat_eq}
use pipeline_azure.Web.SignalR.{
  notifications, cart, orders, Connection, Service, Step, connects, ends_connect, disconnects,
}

-- Every connection starts and stops.
unfoldable pub IsSound : Step → Type 0
IsSound (ends_connect starts) =
    (starts notifications ≡ true) × (starts cart ≡ true) × (starts orders ≡ true)
IsSound (disconnects stops) =
    (stops notifications ≡ true) × (stops cart ≡ true) × (stops orders ≡ true)
IsSound e = Unit

-- Whether a connect is under way after a step.
abbrev pub is_under_way : Step → Bool → Bool
is_under_way (connects token) b = true
is_under_way (ends_connect starts) b = false
is_under_way e b = b

abbrev pub MayBegin : Step → Bool → Type 0
MayBegin (connects token) b = b ≡ false
MayBegin e b = Unit {0}

-- No connect begins while another is under way, and in the end none is.
abbrev pub AreApart : Bool → List Step → Type 0
AreApart b [] = b ≡ false
AreApart b (e ∷ steps) = MayBegin e b × AreApart (is_under_way e b) steps

-- The three connections of a number and the next two.
abbrev pub trio : ℕ → String → List Connection
trio n token =
    record { hub = notifications; number = n; token = token }
    ∷ record { hub = cart; number = n + 1; token = token }
    ∷ record { hub = orders; number = n + 2; token = token }
    ∷ []

abbrev pub fields : ℕ → String → Connection × Connection × Connection
fields n token = (
  record { hub = notifications; number = n; token = token },
  record { hub = cart; number = n + 1; token = token },
  record { hub = orders; number = n + 2; token = token },
)

-- Nothing runs, and no connect is under way.
pub record IsOff (s : Service) : Type 0 where
  pub off : s.is_connected ≡ false
  pub empty : s.started ≡ []
  pub quiet : s.connecting ≡ []

-- Nothing runs, and the connections of the one connect under way are in the fields.
pub record IsConnecting (s : Service) : Type 0 where
  pub number : ℕ
  pub token : String
  pub off : s.is_connected ≡ false
  pub empty : s.started ≡ []
  pub waits : s.connecting ≡ fields number token ∷ []
  pub held : s.connections ≡ some (fields number token)

-- Just the three connections run that the fields hold.
pub record IsOn (s : Service) : Type 0 where
  pub number : ℕ
  pub token : String
  pub on : s.is_connected ≡ true
  pub live : s.started ≡ trio number token
  pub quiet : s.connecting ≡ []
  pub held : s.connections ≡ some (fields number token)

-- By whether a connect is under way.
data IsSingle (s : Service) : Bool → Type 0 where
  stopped : {b : Bool} → IsOff s → IsSingle s b
  waiting : IsConnecting s → IsSingle s true
  running : {b : Bool} → IsOn s → IsSingle s b
