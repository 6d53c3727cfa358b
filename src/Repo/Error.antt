-- ===== src/Repo/Error.antt =====
-- bobr-repo/src/error.rs: a constructor for each message with which the modelled code fails, in
-- place of the pair of a kind and a text.

-- The five messages "expected a CBOR …" of `Decoder::head`.
pub data Expected : Type 0 where
  array map unsigned_integer byte_string text_string : Expected

pub data RepositoryError : Type 0 where
  -- cbor.rs
  truncated_cbor_value cbor_length_overflow cbor_length_too_large : RepositoryError
  truncated_cbor_integer non_shortest trailing_bytes text_not_utf8 : RepositoryError
  expected_cbor : Expected → RepositoryError
  indefinite_length reserved_additional : RepositoryError
  -- master.rs
  master_too_large slot_count_too_large slot_count_exceeds_payload : RepositoryError
  reserve_failed invalid_data_base_url bad_data_base_url unsupported_format : RepositoryError
  no_slots serials_not_increasing no_current_slot : RepositoryError
  digest_not_32_bytes unexpected_key wrong_entry_count : RepositoryError
  -- index.rs
  metadata_too_large mapping_size keys_not_sorted duplicate_pair : RepositoryError
  list_size hashes_not_increasing : RepositoryError
  -- tar_profile.rs
  tar_overflow tar_invalid_field tar_empty_field tar_octal_too_large : RepositoryError
  tar_negative_size tar_size_overflow tar_size_not_octal tar_bytes_after_nul : RepositoryError
  tar_absolute_path tar_parent_component tar_component_too_long tar_empty_path : RepositoryError
  tar_path_limits tar_field_too_small : RepositoryError
  tar_non_directory_parent tar_duplicate_path : RepositoryError
  tar_unexpected_end tar_decoded_overflow tar_extension_too_long : RepositoryError
  tar_truncated_entry tar_nonzero_padding : RepositoryError
  tar_checksum tar_not_ustar tar_long_path tar_long_name_order tar_duplicate_long_link :
      RepositoryError
  tar_long_data tar_long_name_fits tar_long_link_fits tar_too_many_entries : RepositoryError
  tar_link_of_file tar_empty_target tar_target_too_long tar_structural_overflow : RepositoryError
  tar_structural_limit tar_nonzero_size tar_one_terminator tar_trailing_bytes : RepositoryError
  tar_unsupported_type tar_dangling_extension local_io panic : RepositoryError
  -- format.rs
  hash_not_hex hash_not_64_digits : RepositoryError
