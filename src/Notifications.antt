-- ===== src/Notifications.antt =====
-- services/notification_service.py: the alerts a user has read.
-- The alert log stands in the order of the list, latest first, with distinct identifiers; `log.id` is
-- at least 1. A title is a function of the log and left out. Parsing of an identifier is left out.
pub mod Reads
mod Tests
use scrap_monitoring_backend.Base.{
  ℕ, zero, suc, ◌+◌, ◌-◌, ◌*◌, ◌/◌, ◌%◌, ◌≤◌, ◌<◌, min, max, ◌≡◌, refl, sym, ap, ◌∙◌, ◌≢◌, ◌↔◌, ◌⊎◌,
  inl, inr, Bool, true, false, not, ◌&&◌, ◌||◌, Option, none, some, List, [], ◌∷◌, ◌++◌, map, arith,
  ltb, leb, ◌==◌, if◌then◌else◌, ltb→lt, lt→ltb, leb→le, le→leb, ==_iff, ==_refl, Bool-cases,
  Option-cases, is_some, opt_eq, opt_eq→eq, bool_eq, Time, seconds, Ident, percent, length, take,
  drop, get_elem?, keep_if, find_first, any_of, All, length-append, length-drop, length-take,
  All-append, All-drop, Result, ok, err, ◌>>=◌, ◌>>◌, raise_if, is_ok, Returns, Returns-map,
  Returns→some,
}

pub record AlertLog : Type 0 where
  pub id : Ident
  pub event_type : Ident
  pub severity : Ident
  pub message : Ident
  pub triggered_at : Time

pub record NotificationRead : Type 0 where
  pub username : Ident
  pub alert_id : Ident
  pub read_at : Time

pub record Notification : Type 0 where
  pub id : Ident
  pub event_type : Ident
  pub severity : Ident
  pub detail : Ident
  pub occurred_at : Time
  pub read_at : Option Time

pub record NotificationPage : Type 0 where
  pub items : List Notification
  pub page : ℕ
  pub page_size : ℕ
  pub total_items : ℕ
  pub total_pages : ℕ
  pub unread_count : ℕ

-- `_notification`
abbrev pub notification : AlertLog → Option Time → Notification
notification log read_at = record {
  id = log.id;
  event_type = log.event_type;
  severity = log.severity;
  detail = log.message;
  occurred_at = log.triggered_at;
  read_at = read_at;
}

-- The join of the reads: the time at which the user read the alert.
unfoldable pub read_at_of : Ident → Ident → List NotificationRead → Option Time
read_at_of user alert [] = none
read_at_of user alert (r ∷ reads) =
    if r.username == user && r.alert_id == alert
    then some r.read_at
    else read_at_of user alert reads

abbrev pub is_unread : Ident → List NotificationRead → AlertLog → Bool
is_unread user reads log = not (is_some (read_at_of user log.id reads))

-- `insert ... on conflict do nothing` on the user and the alert
unfoldable pub insert_read : NotificationRead → List NotificationRead → List NotificationRead
insert_read r reads =
    if is_some (read_at_of r.username r.alert_id reads) then reads else reads ++ (r ∷ [])

abbrev pub page_items : ℕ → ℕ → List AlertLog → Ident → List NotificationRead → List Notification
page_items offset size logs user reads =
    map (λ (log : AlertLog). notification log (read_at_of user log.id reads))
      (take size (drop offset logs))

unfoldable pub list_notifications :
    Bool → ℕ → ℕ → Ident → List AlertLog → List NotificationRead → NotificationPage
list_notifications unread_only page page_size user logs reads =
    let unread = keep_if (is_unread user reads) logs in
    let unread_count = length unread in
    let total_items = if unread_only then unread_count else length logs in
    let offset = (page - 1) * page_size in
    record {
      items =
          if leb total_items offset
          then []
          else page_items offset page_size (if unread_only then unread else logs) user reads;
      page = page;
      page_size = page_size;
      total_items = total_items;
      total_pages = if ltb 0 total_items then (total_items + page_size - 1) / page_size else 0;
      unread_count = unread_count;
    }

abbrev pub updated :
    Bool
    → Ident
    → Time
    → List NotificationRead
    → Option AlertLog
    → Option Notification × List NotificationRead
updated read user now reads none = (none, reads)
updated read user now reads (some log) =
    let reads' =
      if read
      then insert_read (record { username = user; alert_id = log.id; read_at = now }) reads
      else reads in
    (some (notification log (read_at_of user log.id reads')), reads')

-- `db.get(AlertLog, log_id)`
abbrev pub log_of : Ident → List AlertLog → Option AlertLog
log_of id logs = find_first (λ (log : AlertLog). log.id == id) logs

unfoldable pub update_notification :
    Ident
    → Bool
    → Ident
    → Time
    → List AlertLog
    → List NotificationRead
    → Option Notification × List NotificationRead
unfolding insert_read
update_notification id read user now logs reads = updated read user now reads (log_of id logs)

-- The rows that the one statement inserts.
unfoldable pub new_reads : Ident → Time → List AlertLog → List NotificationRead
new_reads user now [] = []
new_reads user now (log ∷ logs) =
    record { username = user; alert_id = log.id; read_at = now } ∷ new_reads user now logs

unfoldable pub mark_all_as_read :
    Ident → Time → List AlertLog → List NotificationRead → ℕ × List NotificationRead
unfolding new_reads
mark_all_as_read user now logs reads =
    let fresh = new_reads user now (keep_if (is_unread user reads) logs) in
    (length fresh, reads ++ fresh)
