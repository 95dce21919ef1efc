-- ===== src/Constants/TicketStatus.antt =====
-- internal/constants/ticket.go: `TicketStatus`, its text and the parser of that text.
use cicd_demo.Base.{String, Bool, true, false, str_eq, if◌then◌else◌}

pub data TicketStatus : Type 0 where
  valid used invalidated expired unknown : TicketStatus

-- Go's `==` on the enumeration.
abbrev pub same : TicketStatus → TicketStatus → Bool
same valid valid = true
same used used = true
same invalidated invalidated = true
same expired expired = true
same unknown unknown = true
same _ _ = false

-- `String`
abbrev pub to_string : TicketStatus → String
to_string valid = "valid"
to_string used = "used"
to_string invalidated = "invalidated"
to_string expired = "expired"
to_string unknown = "unknown"

-- `ParseTicketStatus`: a text that the map lacks is `unknown`.
unfoldable pub parse : String → TicketStatus
parse s =
    if str_eq s "valid"
    then valid
    else if str_eq s "used"
    then used
    else if str_eq s "invalidated"
    then invalidated
    else if str_eq s "expired"
    then expired
    else if str_eq s "unknown"
    then unknown
    else unknown
