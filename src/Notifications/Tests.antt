-- ===== src/Notifications/Tests.antt =====
-- Runs and an application of the theorem on the notifications.
use scrap_monitoring_backend.Base.{
  ℕ, ◌≡◌, refl, true, false, none, some, List, [], ◌∷◌, map, seconds, Ident,
}
use scrap_monitoring_backend.Notifications.{
  AlertLog, NotificationRead, Notification, read_at_of, insert_read, list_notifications,
  update_notification, new_reads, mark_all_as_read,
}
use scrap_monitoring_backend.Notifications.Reads.{or_else, marked_at, mark_all_as_read-marks}

abbrev log : ℕ → AlertLog
log n = record { id = n; event_type = 1; severity = 2; message = 3; triggered_at = seconds n }

abbrev logs : List AlertLog
logs = log 3 ∷ log 2 ∷ log 1 ∷ []

abbrev reads : List NotificationRead
reads =
    record { username = 7; alert_id = 2; read_at = 5 }
    ∷ record { username = 8; alert_id = 1; read_at = 6 }
    ∷ []

marked : (mark_all_as_read 7 9 logs reads).0 ≡ 2
unfolding mark_all_as_read read_at_of new_reads
marked = refl

-- The first reading time stays.
updated_again : read_at_of 7 2 (update_notification 2 true 7 9 logs reads).1 ≡ some 5
unfolding update_notification insert_read read_at_of
updated_again = refl

absent_alert : (update_notification 4 true 7 9 logs reads).0 ≡ none
unfolding update_notification
absent_alert = refl

second_page :
    map (λ (n : Notification). n.id) (list_notifications false 2 2 7 logs reads).items ≡ 1 ∷ []
unfolding list_notifications read_at_of
second_page = refl

mark_all_as_read-marks_example :
    ((u a : Ident)
      → read_at_of u a (mark_all_as_read 7 9 logs reads).1
        ≡ or_else (read_at_of u a reads) (marked_at 7 9 logs u a))
    × ((mark_all_as_read 7 9 logs reads).0
        ≡ (list_notifications true 1 2 7 logs reads).unread_count)
    × ((list_notifications true 1 2 7 logs (mark_all_as_read 7 9 logs reads).1).unread_count ≡ 0)
mark_all_as_read-marks_example = mark_all_as_read-marks 7 9 logs reads true 1 2
