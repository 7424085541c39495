-- ===== src/Fuel/Requests.antt =====
-- `handleMessage` of MSIHandler.cpp and MESIHandler.cpp for a request, and the queues of blocked
-- messages.
use syncd_sim.Base.{ℕ, Bool, not}
use syncd_sim.Base.Effects.{Exec}
use syncd_sim.Types.{
  Message, MessageType, cache_read, cache_read_reply, cache_update, cache_update_ack,
  cache_invalidate, cache_invalidate_ack, cache_fetch, cache_fetch_ack, cache_eviction_alert,
  write_miss, read_miss, invalidate, invalidate_ack, invalidate_other, invalidate_other_ack, fetch,
  fetch_invalidate, data_value_reply, data_value_reply_e, data_write_back, rollback,
}
use syncd_sim.Context.{Config, Context, World}
use syncd_sim.Msi
use syncd_sim.Mesi
use syncd_sim.Fuel.Triples.{Gives-then, Gives-require}
use syncd_sim.Fuel.Context.{IsApart}
use syncd_sim.Fuel.Cases.{
  IsRequest, Left, write_miss-Left, invalidate_other-Left, msi_read_miss-Left, msi_invalidate-Left,
  msi_fetch-Left, msi_fetch_invalidate-Left, mesi_read_miss-Left, mesi_invalidate-Left,
  mesi_fetch-Left, mesi_fetch_invalidate-Left,
}

module _ (cfg : Config) (me : ℕ) {X : Type 0} (F : Context → X) (P : X → Type 0)
    (apart : IsApart me F P) (msg : Message) where
  module _ (check : ℕ → Exec World (Unit {0})) (again : Bool) where
    msi_switch-Left :
        (type : MessageType)
        → IsRequest type
        → Left cfg me F P apart msg (Msi.switch cfg me check type msg again)
    unfolding Msi.switch
    msi_switch-Left read_miss r = msi_read_miss-Left cfg me F P apart msg again
    msi_switch-Left write_miss r = write_miss-Left cfg me F P apart msg again
    msi_switch-Left invalidate_other r = invalidate_other-Left cfg me F P apart msg again
    msi_switch-Left invalidate r = msi_invalidate-Left cfg me F P apart msg
    msi_switch-Left fetch r = msi_fetch-Left cfg me F P apart msg
    msi_switch-Left fetch_invalidate r = msi_fetch_invalidate-Left cfg me F P apart msg
    msi_switch-Left cache_read r = elim r [ ]
    msi_switch-Left cache_read_reply r = elim r [ ]
    msi_switch-Left cache_update r = elim r [ ]
    msi_switch-Left cache_update_ack r = elim r [ ]
    msi_switch-Left cache_invalidate r = elim r [ ]
    msi_switch-Left cache_invalidate_ack r = elim r [ ]
    msi_switch-Left cache_fetch r = elim r [ ]
    msi_switch-Left cache_fetch_ack r = elim r [ ]
    msi_switch-Left cache_eviction_alert r = elim r [ ]
    msi_switch-Left invalidate_ack r = elim r [ ]
    msi_switch-Left invalidate_other_ack r = elim r [ ]
    msi_switch-Left data_value_reply r = elim r [ ]
    msi_switch-Left data_value_reply_e r = elim r [ ]
    msi_switch-Left data_write_back r = elim r [ ]
    msi_switch-Left rollback r = elim r [ ]

    mesi_switch-Left :
        (type : MessageType)
        → IsRequest type
        → Left cfg me F P apart msg (Mesi.switch cfg me check type msg again)
    unfolding Mesi.switch
    mesi_switch-Left read_miss r = mesi_read_miss-Left cfg me F P apart msg again
    mesi_switch-Left write_miss r = write_miss-Left cfg me F P apart msg again
    mesi_switch-Left invalidate_other r = invalidate_other-Left cfg me F P apart msg again
    mesi_switch-Left invalidate r = mesi_invalidate-Left cfg me F P apart msg
    mesi_switch-Left fetch r = mesi_fetch-Left cfg me F P apart msg
    mesi_switch-Left fetch_invalidate r = mesi_fetch_invalidate-Left cfg me F P apart msg
    mesi_switch-Left cache_read r = elim r [ ]
    mesi_switch-Left cache_read_reply r = elim r [ ]
    mesi_switch-Left cache_update r = elim r [ ]
    mesi_switch-Left cache_update_ack r = elim r [ ]
    mesi_switch-Left cache_invalidate r = elim r [ ]
    mesi_switch-Left cache_invalidate_ack r = elim r [ ]
    mesi_switch-Left cache_fetch r = elim r [ ]
    mesi_switch-Left cache_fetch_ack r = elim r [ ]
    mesi_switch-Left cache_eviction_alert r = elim r [ ]
    mesi_switch-Left invalidate_ack r = elim r [ ]
    mesi_switch-Left invalidate_other_ack r = elim r [ ]
    mesi_switch-Left data_value_reply r = elim r [ ]
    mesi_switch-Left data_value_reply_e r = elim r [ ]
    mesi_switch-Left data_write_back r = elim r [ ]
    mesi_switch-Left rollback r = elim r [ ]

    pub msi_handle-Left :
        IsRequest msg.msg_type → Left cfg me F P apart msg (Msi.handle cfg me check msg again)
    unfolding Msi.handle
    msi_handle-Left r =
        Gives-then (Gives-require (not msg.serviced)) (msi_switch-Left msg.msg_type r)

    pub mesi_handle-Left :
        IsRequest msg.msg_type → Left cfg me F P apart msg (Mesi.handle cfg me check msg again)
    unfolding Mesi.handle
    mesi_handle-Left r =
        Gives-then (Gives-require (not msg.serviced)) (mesi_switch-Left msg.msg_type r)
