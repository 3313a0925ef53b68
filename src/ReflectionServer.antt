-- ===== src/ReflectionServer.antt =====
-- `ServerReflectionInfo` of larking/proxy.go, the reflection service that a mux offers.
use larking.Base.{ℕ, suc, Option, none, some, List, [], ◌∷◌, ◌≡◌, refl, ap}

-- What stream.Recv returns: a request of a host, io.EOF or another error.
pub data Received (Request : Type 0) : Type 0 where
  request : ℕ → Request → Received Request
  eof : Received Request
  failed : ℕ → Received Request

-- rpb.ServerReflectionResponse, whose message is not set.
pub record Response (Request : Type 0) : Type 0 where
  pub valid_host : ℕ
  pub original_request : Request

-- The loop returns nil or an error, or still waits.
pub data Ending : Type 0 where
  nil : Ending
  error : ℕ → Ending
  waits : Ending

module _ {Request : Type 0} where
  unfoldable pub answer : ℕ → Request → Response Request
  answer host r = record { valid_host = host; original_request = r }

  -- The responses that are sent and how the loop ends, on what is received and what each Send returns.
  unfoldable pub server_reflection_info :
      List (Received Request) → (ℕ → Option ℕ) → ℕ → List (Response Request) × Ending
  unfolding answer
  server_reflection_info [] send n = ([], waits)
  server_reflection_info (eof ∷ rs) send n = ([], nil)
  server_reflection_info (failed e ∷ rs) send n = ([], error e)
  server_reflection_info (request host r ∷ rs) send n =
      let later = server_reflection_info rs send (suc n) in
      elim (send n) [ some e ↦ ([], error e) | none ↦ (answer host r ∷ later.0, later.1) ]

  -- A client that sends requests and then ends its stream.
  unfoldable pub requests : List (ℕ × Request) → List (Received Request)
  requests [] = eof ∷ []
  requests ((host, r) ∷ rs) = request host r ∷ requests rs

  unfoldable pub echoes : List (ℕ × Request) → List (Response Request)
  unfolding answer
  echoes [] = []
  echoes ((host, r) ∷ rs) = answer host r ∷ echoes rs

  -- Each request of a client is answered by itself, in order, and the loop returns nil at the end of
  -- the stream, if no response fails to be sent.
  pub server_reflection_info-requests :
      (rs : List (ℕ × Request)) (send : ℕ → Option ℕ) (n : ℕ)
      → ((i : ℕ) → send i ≡ none)
      → server_reflection_info (requests rs) send n ≡ (echoes rs, nil)
  unfolding server_reflection_info requests echoes
  server_reflection_info-requests [] send n fine = refl
  server_reflection_info-requests ((host, r) ∷ rs) send n fine =
      rw fine (
        ap (λ x. (answer host r ∷ x.0, x.1)) (server_reflection_info-requests rs send (suc n) fine))
