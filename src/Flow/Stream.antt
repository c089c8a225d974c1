-- ===== src/Flow/Stream.antt =====
-- The message and the callback that the decoders of outlet/flow/decoder share (`FinalizeFlowFunc`).
use akvorado.Prelude.{
  ℕ, Bool, true, false, Option, some, if◌then◌else◌, ◌>>=◌, Returns, Returns-bind,
}
use akvorado.Schema.Message.{FlowMessage}
use akvorado.Schema.Message.Pending.{IsBuilding}
use akvorado.Schema.Message.Safe.{IsSafe}
use akvorado.Schema.Batch.{undo}
use akvorado.Schema.Batch.Aligned.{IsAligned, IsAligned-IsBuilding, undo_lem}

-- The message, and the state `X` that the callback changes besides it.
abbrev pub Stream : Type 0 → Type 0
Stream X = FlowMessage × X

-- The callback, which is given the message as it is: `none` is a panic.
abbrev pub FinalizeFlow : Type 0 → Type 0
FinalizeFlow X = Stream X → Option (Stream X)

module _ {X : Type 0} where
  -- Code of a decoder that works on the message only.
  unfoldable pub on_message : (FlowMessage → Option FlowMessage) → Stream X → Option (Stream X)
  on_message f (bf, x) = do bf' ← f bf; some (bf', x)

  module _ (R : ℕ → X → Type 0) where
    -- The batch was aligned when the current flow began, the flow added one row at most to a column,
    -- and the rows of the batch then and the state are related by `R`.
    pub record IsStreaming (s : Stream X) : Type 0 where
      pub start : FlowMessage
      pub aligned : IsAligned start
      pub building : IsBuilding start.batch s.0
      pub related : R start.batch.row_count s.1

    -- The code does not panic, and leaves such a message and such a state.
    pub record IsKept (m : Option (Stream X)) : Type 0 where
      pub returns : Returns IsStreaming m

    -- The callback keeps the relation.
    abbrev pub Keeps : FinalizeFlow X → Type 0
    Keeps finalize = (s : Stream X) → IsStreaming s → IsKept (finalize s)

    pub IsKept-some : (s : Stream X) → IsStreaming s → IsKept (some s)
    IsKept-some s h = record { returns = h }

    pub IsKept-bind :
        (m : Option (Stream X)) (f : FinalizeFlow X)
        → IsKept m
        → ((s : Stream X) → IsStreaming s → IsKept (f s))
        → IsKept (m >>= f)
    IsKept-bind m f h k = record {
      returns = Returns-bind IsStreaming IsStreaming m f h.returns (λ s b. (k s b).returns);
    }

    pub IsKept-if :
        (t : Bool) (m n : Option (Stream X)) → IsKept m → IsKept n → IsKept (if t then m else n)
    IsKept-if true m n h k = h
    IsKept-if false m n h k = k

    -- The flow goes on with another message over the same batch.
    pub IsStreaming-message :
        (s : Stream X) (h : IsStreaming s) (bf : FlowMessage)
        → IsBuilding h.start.batch bf
        → IsStreaming (bf, s.1)
    IsStreaming-message s h bf b = record {
      start = h.start;
      aligned = h.aligned;
      building = b;
      related = h.related;
    }

    pub on_message-IsKept :
        (f : FlowMessage → Option FlowMessage) (s : Stream X) (h : IsStreaming s) (bf : FlowMessage)
        → IsSafe h.start.batch (f bf)
        → IsKept (on_message f (bf, s.1))
    unfolding on_message
    on_message-IsKept f s h bf safe = record {
      returns =
          Returns-bind (IsBuilding h.start.batch) IsStreaming (f bf) _ safe.returns
            (λ m b. IsStreaming-message s h m b);
    }

    -- After `Undo` the flow starts again.
    pub undo-IsKept : (s : Stream X) → IsStreaming s → IsKept (on_message undo s)
    unfolding on_message
    undo-IsKept s h = record {
      returns =
          Returns-bind _ IsStreaming (undo s.0) _ (undo_lem h.start s.0 h.aligned h.building)
            (λ bf r. record {
              start = bf;
              aligned = r.0;
              building = IsAligned-IsBuilding bf r.0;
              related = rw r.2 h.related;
            });
    }
