-- ===== src/Server/Gateway/Headers.antt =====
-- The header of the gateway's response before anything has failed.
use a_simple_rpc.Prelude.{◌≡◌, refl, false, [], ◌∷◌, none, bytes_eq, text_eq}
use a_simple_rpc.Prelude.Bytes.{Text}
use a_simple_rpc.Prelude.Maps.{lookup, insert, lookup-insert}
use a_simple_rpc.Server.Converter.{
  HttpHeader, x_version, x_message_status_type, x_serialize_type, x_message_id, x_service_path,
  x_service_method, x_error_message,
}
use a_simple_rpc.Server.Gateway.{Checked, check_name, check_type, hand_on, check_header}

-- No error is announced in a header.
pub record IsClean (h : HttpHeader) : Type 0 where
  pub no_message : lookup x_error_message h ≡ none
  pub no_status : lookup x_message_status_type h ≡ none

pub insert-IsClean :
    (k v : Text) (h : HttpHeader)
    → bytes_eq k x_error_message ≡ false
    → bytes_eq k x_message_status_type ≡ false
    → IsClean h
    → IsClean (insert k v h)
insert-IsClean k v h a b c = record {
  no_message = rw (lookup-insert k x_error_message v h, a) c.no_message;
  no_status = rw (lookup-insert k x_message_status_type v h, b) c.no_status;
}

empty-IsClean : IsClean []
unfolding lookup
empty-IsClean = record { no_message = refl; no_status = refl }

check_name-IsClean :
    (key name message : Text) (k : Checked)
    → bytes_eq key x_error_message ≡ false
    → bytes_eq key x_message_status_type ≡ false
    → IsClean k.response
    → IsClean (check_name key name message k).response
unfolding check_name
check_name-IsClean key [] message k a b h = h
check_name-IsClean key (c ∷ cs) message k a b h = insert-IsClean key (c ∷ cs) k.response a b h

check_type-IsClean :
    (st : Text) (k : Checked) → IsClean k.response → IsClean (check_type st k).response
unfolding check_type x_serialize_type x_error_message x_message_status_type bytes_eq
check_type-IsClean [] k h = h
check_type-IsClean (c ∷ cs) k h = insert-IsClean _ (c ∷ cs) k.response refl refl h

hand_on-IsClean : (k : Checked) → IsClean k.response → IsClean (hand_on k).response
unfolding hand_on x_version x_message_id x_error_message x_message_status_type bytes_eq
hand_on-IsClean k h =
    insert-IsClean _ _ _ refl refl
      (insert-IsClean _ _ _ refl refl (insert-IsClean _ _ k.response refl refl h))

-- The checks announce no error.
pub check_header-IsClean :
    (path name : Text) (h : HttpHeader) → IsClean (check_header path name h).response
unfolding check_header x_service_path x_service_method x_error_message x_message_status_type
    bytes_eq
check_header-IsClean path name h = hand_on-IsClean _ (
    check_type-IsClean _ _ (
      check_name-IsClean x_service_method name _ _ refl refl
        (check_name-IsClean x_service_path path _ _ refl refl empty-IsClean)))
