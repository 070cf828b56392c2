-- ===== src/Stored.antt =====
-- What the kit reads with the client: the fields of an event (eventsourcingdb.Event), and streams.
use architecturekit_golang.Base.{nat_eq, Option, Text, text_has_eq}
use architecturekit_golang.Failure.{Failure}

pub record StoredEvent : Type 0 where
  pub id : Text
  pub source : Text
  pub subject : Text
  pub type : Text
  pub payload : Text  -- the field Data, raw JSON

-- What the stream hands out: an event, or an error, with the error of the context at that moment.
pub data Element : Type 0 where
  arrives : StoredEvent → Element
  breaks : Failure → Option Failure → Element
