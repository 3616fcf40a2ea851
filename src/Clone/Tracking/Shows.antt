-- ===== src/Clone/Tracking/Shows.antt =====
-- The link status that a destination shows, by what a server prints of its replication.
use redis_backup_operator.Base.{String, ◌≡◌, refl, none, some, List, All}
use redis_backup_operator.Base.Text.{◌+++◌}
use redis_backup_operator.Base.Text.SplitLaws.{Avoids}
use redis_backup_operator.Clone.Info.{Field, IsPrintable, print_reply, last_value, get-print_reply}
use redis_backup_operator.Clone.Tracking.{Seen, status_of}

-- A destination that says nothing shows "down". One that answers a section, of a heading without a
-- colon and of fields, on lines that each end in a carriage return and a line feed, shows the value
-- of the last field `master_link_status`, and the carriage return after it.
pub data Shows : Seen → String → Type 0 where
  silent : Shows none "down"
  printed :
      (heading : String) (fields : List Field) {link : String}
      → Avoids ":" heading
      → Avoids "\n" heading
      → All IsPrintable fields
      → last_value "master_link_status" fields none ≡ some link
      → Shows (some (print_reply heading fields)) (link +++ "\r")

pub status_of-Shows : {seen : Seen} {status : String} → Shows seen status → status_of seen ≡ status
status_of-Shows silent = refl
status_of-Shows (printed heading fields a b p has) = get-print_reply heading fields a b p has
