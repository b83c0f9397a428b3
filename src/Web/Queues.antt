-- ===== src/Web/Queues.antt =====
-- The handlers of membersys/memberqueue.go and membersys/trash.go.
use membersys.Base.{not, List, [], ◌∷◌, Text, codes, is_empty}
use membersys.Membership.{MemberWithKey}
use membersys.Database.{MembershipDb}
use membersys.Cassandra.Enumerate.{Listing}
use membersys.Web.Handler.{
  Request, Site, Handler, ◌>>=◌, ◌>>◌, emit, stop_if, emit_if, or_refuse, attempt, listed,
  encode_json, check_csrf, is_outsider, write_header, empty_object,
}

-- The queueListType.
pub record QueuePage : Type 0 where
  pub queued : List MemberWithKey
  pub csrf_token : Text

abbrev pub queue_cancel_url : Text
queue_cancel_url = codes "/admin/api/cancel-queued"

module _ (db : MembershipDb) (site : Site) (req : Request) where
  -- MemberQueueListHandler and MemberDeQueueListHandler have the same body but for the list.
  abbrev pub list_queue_of :
      (db.State → Listing MemberWithKey) → Handler db.State QueuePage (Unit {0})
  list_queue_of list = do
    stop_if (not (req.in_scope site.admingroup)) (write_header 401 ∷ [])
    queued ← listed list
    token ← or_refuse (req.gen_csrf queue_cancel_url) 500
    encode_json req (record { queued = queued; csrf_token = token })

  unfoldable pub list_queued : Handler db.State QueuePage (Unit {0})
  list_queued = list_queue_of (db.enumerate_queued_members (req.form (codes "start")) site.pagesize)

  unfoldable pub list_dequeued : Handler db.State QueuePage (Unit {0})
  list_dequeued =
      list_queue_of (db.enumerate_de_queued_members (req.form (codes "start")) site.pagesize)

  unfoldable pub list_trash : Handler db.State (List MemberWithKey) (Unit {0})
  list_trash = do
    stop_if (not (req.in_scope site.admingroup)) (write_header 401 ∷ [])
    trashed ← listed (db.enumerate_trashed_members (req.form (codes "start")) site.pagesize)
    encode_json req trashed

  -- The answer 403 does not end the handler.
  unfoldable pub cancel_queued : Handler db.State (Unit {0}) (Unit {0})
  cancel_queued = do
    stop_if (is_empty req.user) (write_header 401 ∷ [])
    emit_if (is_outsider site req) (write_header 403 ∷ [])
    check_csrf req (req.post_form (codes "csrf_token"))
    attempt (db.move_queued_record_to_trash (req.post_form (codes "uuid")) req.user) 411
    emit (write_header 200 ∷ empty_object ∷ [])
