-- ===== src/Llm/Store/Run.antt =====
-- minireplay/llm_store.py: a replay as a sequence of steps. Handlers run side by side and give way to
-- one another where they wait for the engine or for the client.
use minireplayer.Prelude.{
  ℕ, String, ◌≡◌, Bool, some, List, ◌∷◌, ◌++◌, take, lookup, In, Subset, string_eq, pair_eq,
}
use minireplayer.Json.{Fields}
use minireplayer.Boundary.{Python}
use minireplayer.Llm.Slot.{Slot}
use minireplayer.Llm.Store.{RequestIdentity, Lane, Store}
use minireplayer.Llm.Store.Replay.{
  Decision, held, tail, serve, fails, handle, replay_line, write_evidence, deliver, hold_truncated,
}
use minireplayer.Llm.Store.Lanes.{queue, place}

-- the store, the requests that are being served, and those whose answer is being sent
pub record World : Type 0 where
  pub store : Store
  pub serving : List Slot
  pub sending : List Slot

-- what a request leaves: a held one waits for ever
unfoldable pub accept : ℕ → ℕ → Store × Decision → World → World
accept now later (s, held) w = record w { store = s }
accept now later (s, tail e) w = record w { store = hold_truncated now later e s }
accept now later (s, serve engine e) w = record w { store = s; serving = e ∷ w.serving }
accept now later (s, fails x) w = record w { store = s }

-- A step of a replay: a request comes, evidence is written, an answer is delivered, or a handler
-- stops on an exception.
pub data Step (py : Python) (w : World) : World → Type 0 where
  request :
      (over : String → Bool) (i : RequestIdentity) (body : Fields) (api : String) (now later : ℕ)
      → Step py w (accept now later (handle py over i body api w.store) w)
  served :
      (i : RequestIdentity) (started ended : ℕ) (before later : List Slot) (e : Slot)
      → w.serving ≡ before ++ e ∷ later
      → Step py w (record {
        store = write_evidence i started ended e w.store;
        serving = before ++ later;
        sending = e ∷ w.sending;
      })
  sent :
      (before later : List Slot) (e : Slot)
      → w.sending ≡ before ++ e ∷ later
      → Step py w (record w { store = deliver e w.store; sending = before ++ later })
  engine_failed :
      (before later : List Slot) (e : Slot)
      → w.serving ≡ before ++ e ∷ later
      → Step py w (record w { serving = before ++ later })
  client_gone :
      (before later : List Slot) (e : Slot)
      → w.sending ≡ before ++ e ∷ later
      → Step py w (record w { sending = before ++ later })

pub data Steps (py : Python) (w : World) : World → Type 0 where
  start : Steps py w w
  step : {v u : World} → Steps py w v → Step py v u → Steps py w u

-- the recorded request is one that its lane has handed over
abbrev pub Passed : Store → Slot → Type 0
Passed s e = (k : Lane) × In e (take (place k s) (queue k s))

abbrev pub PassedId : Store → String → Type 0
PassedId s i = (e : Slot) × (i ≡ e.attempt_id) × Passed s e

-- the line of the served request is in llm.jsonl
abbrev pub Evidenced : Store → Slot → Type 0
Evidenced s e =
    (mode : String) × (started : ℕ) × (ended : ℕ) × In (replay_line mode started ended e) s.attempts

abbrev pub IsSound : World → Type 0
IsSound w =
    ((e : Slot) → In e w.serving → Passed w.store e)
    × (((e : Slot) → In e w.sending → In e.attempt_id w.store.completed)
        × (((i : String)
              → In i w.store.completed
              → (e : Slot) × (i ≡ e.attempt_id) × (Passed w.store e) × (Evidenced w.store e))
            × (Subset w.store.delivered w.store.completed
                × ((i : String) (n : ℕ)
                    → lookup i w.store.truncated_started ≡ some n
                    → PassedId w.store i))))
