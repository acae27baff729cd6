-- ===== src/Notifications/Reads.antt =====
-- What `mark_all_as_read` of services/notification_service.py records.
use scrap_monitoring_backend.Base.{
  ℕ, ◌≡◌, refl, ap, ◌∙◌, inl, inr, Bool, true, false, not, ◌&&◌, Option, none, some, List, [], ◌∷◌,
  ◌++◌, arith, ◌==◌, if◌then◌else◌, ==_iff, ==_refl, Bool-cases, is_some, Time, Ident, length,
  keep_if, any_of,
}
use scrap_monitoring_backend.Notifications.{
  AlertLog, NotificationRead, read_at_of, is_unread, list_notifications, new_reads,
  mark_all_as_read,
}

abbrev pub or_else : Option Time → Option Time → Option Time
or_else (some t) o = some t
or_else none o = o

abbrev pub logs_id : Ident → List AlertLog → Bool
logs_id a logs = any_of (λ (log : AlertLog). log.id == a) logs

-- The reading time that marking everything at `now` gives to an alert of a user.
abbrev pub marked_at : Ident → Time → List AlertLog → Ident → Ident → Option Time
marked_at user now logs u a = if user == u && logs_id a logs then some now else none

read_at_of-append :
    (u a : Ident) (xs ys : List NotificationRead)
    → read_at_of u a (xs ++ ys) ≡ or_else (read_at_of u a xs) (read_at_of u a ys)
unfolding read_at_of
read_at_of-append u a [] ys = refl
read_at_of-append u a (r ∷ xs) ys = elim (Bool-cases (r.username == u && r.alert_id == a)) [
  | inl here ↦ rw here refl
  | inr other ↦ rw other (read_at_of-append u a xs ys)
]

read_at_of-new_reads :
    (user : Ident) (now : Time) (u a : Ident) (logs : List AlertLog)
    → read_at_of u a (new_reads user now logs) ≡ marked_at user now logs u a
unfolding read_at_of new_reads
read_at_of-new_reads user now u a [] = ground arith
read_at_of-new_reads user now u a (log ∷ logs) =
    let rest = read_at_of-new_reads user now u a logs in
    elim (Bool-cases (user == u)) [
      | inl mine ↦ elim (Bool-cases (log.id == a)) [
        | inl here ↦ rw (mine, here) refl
        | inr other ↦
            rw (mine, other) (rest ∙ ap (λ b. if b && logs_id a logs then some now else none) mine)
      ]
      | inr foreign ↦
          rw foreign (rest ∙ ap (λ b. if b && logs_id a logs then some now else none) foreign)
    ]

logs_id-keep_if :
    (user a : Ident) (reads : List NotificationRead) (logs : List AlertLog)
    → read_at_of user a reads ≡ none
    → logs_id a (keep_if (is_unread user reads) logs) ≡ logs_id a logs
logs_id-keep_if user a reads [] unread = refl
logs_id-keep_if user a reads (log ∷ logs) unread =
    let rest = logs_id-keep_if user a reads logs unread in
    elim (Bool-cases (log.id == a)) [
      | inl here ↦
          let kept : is_unread user reads log ≡ true =
            ap (λ x. not (is_some (read_at_of user x reads))) ((==_iff log.id a).0 here)
            ∙ ap (λ o. not (is_some o)) unread in
          rw (kept, here) refl
      | inr other ↦ elim (Bool-cases (is_unread user reads log)) [
        | inl kept ↦ rw (kept, other) rest
        | inr dropped ↦ rw (dropped, other) rest
      ]
    ]

no_unread :
    (user : Ident) (reads : List NotificationRead) (logs : List AlertLog)
    → ((a : Ident) → logs_id a logs ≡ true → is_some (read_at_of user a reads) ≡ true)
    → keep_if (is_unread user reads) logs ≡ []
no_unread user reads [] h = refl
no_unread user reads (log ∷ logs) h =
    let here : logs_id log.id (log ∷ logs) ≡ true = rw (==_refl log.id) refl in
    let seen : is_unread user reads log ≡ false = ap not (h log.id here) in
    let later : (a : Ident) → logs_id a logs ≡ true → logs_id a (log ∷ logs) ≡ true =
      λ a e. ground arith in
    rw seen (no_unread user reads logs (λ a e. h a (later a e)))

length-new_reads :
    (user : Ident) (now : Time) (logs : List AlertLog)
    → length (new_reads user now logs) ≡ length logs
unfolding new_reads
length-new_reads user now [] = refl
length-new_reads user now (log ∷ logs) = omega (arith, length-new_reads user now logs)

or_else_same : (o x y : Option Time) → (o ≡ none → x ≡ y) → or_else o x ≡ or_else o y
or_else_same none x y h = h refl
or_else_same (some t) x y h = refl

or_else_some : (o x : Option Time) → is_some x ≡ true → is_some (or_else o x) ≡ true
or_else_some none x h = h
or_else_some (some t) x h = refl

marked_at-keep_if :
    (user : Ident) (now : Time) (reads : List NotificationRead) (logs : List AlertLog) (u a : Ident)
    → or_else (read_at_of u a reads) (marked_at user now (keep_if (is_unread user reads) logs) u a)
      ≡ or_else (read_at_of u a reads) (marked_at user now logs u a)
marked_at-keep_if user now reads logs u a =
    or_else_same (read_at_of u a reads)
      (marked_at user now (keep_if (is_unread user reads) logs) u a) (marked_at user now logs u a)
      (λ unread. elim (Bool-cases (user == u)) [
        | inl mine ↦
            ap (λ b. if user == u && b then some now else none)
              (logs_id-keep_if user a reads logs
                (ap (λ x. read_at_of x a reads) ((==_iff user u).0 mine) ∙ unread))
        | inr foreign ↦ rw foreign refl
      ])

marked_at-listed :
    (user : Ident) (now : Time) (logs : List AlertLog) (a : Ident)
    → logs_id a logs ≡ true
    → is_some (marked_at user now logs user a) ≡ true
marked_at-listed user now logs a listed = rw (==_refl user, listed) refl

read_at_of-mark_all_as_read :
    (user : Ident) (now : Time) (logs : List AlertLog) (reads : List NotificationRead) (u a : Ident)
    → read_at_of u a (mark_all_as_read user now logs reads).1
      ≡ or_else (read_at_of u a reads) (marked_at user now logs u a)
unfolding mark_all_as_read
read_at_of-mark_all_as_read user now logs reads u a =
    let unread = keep_if (is_unread user reads) logs in
    read_at_of-append u a reads (new_reads user now unread)
    ∙ ap (or_else (read_at_of u a reads)) (read_at_of-new_reads user now u a unread)
    ∙ marked_at-keep_if user now reads logs u a

-- Of marking everything as read: each user and alert keeps the earlier reading time, the alerts of the
-- log that this user had not read get `now`, and nothing else does; the call returns the unread count
-- that the list showed before, and the list shows 0 unread after it.
pub mark_all_as_read-marks :
    (user : Ident) (now : Time) (logs : List AlertLog) (reads : List NotificationRead)
    (unread_only : Bool) (page page_size : ℕ)
    → ((u a : Ident)
        → read_at_of u a (mark_all_as_read user now logs reads).1
          ≡ or_else (read_at_of u a reads) (marked_at user now logs u a))
      × ((mark_all_as_read user now logs reads).0
          ≡ (list_notifications unread_only page page_size user logs reads).unread_count)
      × ((list_notifications unread_only page page_size user logs
            (mark_all_as_read user now logs reads).1).unread_count
          ≡ 0)
unfolding mark_all_as_read list_notifications
mark_all_as_read-marks user now logs reads unread_only page page_size =
    let after = (mark_all_as_read user now logs reads).1 in
    let seen : (a : Ident) → logs_id a logs ≡ true → is_some (read_at_of user a after) ≡ true =
      λ a listed.
        ap is_some (read_at_of-mark_all_as_read user now logs reads user a)
        ∙ or_else_some (read_at_of user a reads) (marked_at user now logs user a)
            (marked_at-listed user now logs a listed) in
    (
      read_at_of-mark_all_as_read user now logs reads,
      length-new_reads user now (keep_if (is_unread user reads) logs),
      ap length (no_unread user after logs seen),
    )
