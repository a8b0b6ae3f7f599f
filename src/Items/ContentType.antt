-- ===== src/Items/ContentType.antt =====
-- The names of the item types in common/common.go.
use gosn_v.Prelude.{String}

abbrev pub note : String
note = "Note"

abbrev pub tag : String
tag = "Tag"

abbrev pub component : String
component = "SN|Component"

abbrev pub items_key : String
items_key = "SN|ItemsKey"

abbrev pub user_preferences : String
user_preferences = "SN|UserPreferences"

abbrev pub sf_extension : String
sf_extension = "SF|Extension"

abbrev pub theme : String
theme = "SN|Theme"

abbrev pub privileges : String
privileges = "SN|Privileges"

abbrev pub extension : String
extension = "Extension"

abbrev pub sf_mfa : String
sf_mfa = "SF|MFA"

abbrev pub smart_tag : String
smart_tag = "SN|SmartTag"

abbrev pub file_safe_file_metadata : String
file_safe_file_metadata = "SN|FileSafe|FileMetadata"

abbrev pub file_safe_integration : String
file_safe_integration = "SN|FileSafe|Integration"

abbrev pub file_safe_credentials : String
file_safe_credentials = "SN|FileSafe|Credentials"

abbrev pub extension_repo : String
extension_repo = "SN|ExtensionRepo"

abbrev pub file : String
file = "SN|File"

abbrev pub trusted_contact : String
trusted_contact = "SN|TrustedContact"

abbrev pub vault_listing : String
vault_listing = "SN|VaultListing"

abbrev pub key_system_root_key : String
key_system_root_key = "SN|KeySystemRootKey"

abbrev pub key_system_items_key : String
key_system_items_key = "SN|KeySystemItemsKey"
