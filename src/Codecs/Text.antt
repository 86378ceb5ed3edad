-- ===== src/Codecs/Text.antt =====
-- components/home_io_control/proto_codecs.cpp: the names of the enumerators, for logs and for the
-- answers to the user. The default branches are for values that are no enumerator.
use Prim.Native.String.{String}
use home_io_control_wio_b2b.Codecs.{
  NameError, no_error, empty_name, too_long, invalid_utf8, unsupported_char, AddressClass, unicast,
  broadcast_all, broadcast_type, discovery, unknown_broadcast,
}

unfoldable device_name_validation_error_name : NameError → String
device_name_validation_error_name no_error = "NONE"
device_name_validation_error_name empty_name = "EMPTY"
device_name_validation_error_name too_long = "TOO_LONG"
device_name_validation_error_name invalid_utf8 = "INVALID_UTF8"
device_name_validation_error_name unsupported_char = "UNSUPPORTED_CHAR"

unfoldable device_name_validation_error_description : NameError → String
device_name_validation_error_description no_error = "name accepted"
device_name_validation_error_description empty_name = "device name must not be empty"
device_name_validation_error_description too_long =
    "device name exceeds the 15-character write limit"
device_name_validation_error_description invalid_utf8 = "device name must be valid UTF-8"
device_name_validation_error_description unsupported_char =
    "device name contains characters outside Latin-1"

unfoldable address_class_name : AddressClass → String
address_class_name unicast = "unicast"
address_class_name broadcast_all = "broadcast_all"
address_class_name broadcast_type = "broadcast_type"
address_class_name discovery = "discovery"
address_class_name unknown_broadcast = "unknown_broadcast"
