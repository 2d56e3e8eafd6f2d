-- ===== src/Miniport/Tests.antt =====
-- Runs of minwavert.cpp's model, and inputs for its theorems.
use reai_board_sdk.Prelude.{
  ℕ, zero, suc, inl, inr, ap, ◌≡◌, ◌≤◌, ◌<◌, ◌⊎◌, refl, arith, List, [], ◌∷◌, true, false, none,
  some, replicate,
}
use reai_board_sdk.Status.{success, no_match, insufficient_resources, invalid_parameter}
use reai_board_sdk.PcmFeed.{Feed}
use reai_board_sdk.PcmFeed.Invariant.{IsLoaded}
use reai_board_sdk.Miniport.{
  Miniport, Format, no_pin, pin_type_of, init_miniport, system_render_pin, system_capture_pin,
  bridge_pin, validate_stream_create, stream_created, free_stream, cache_stream,
}
use reai_board_sdk.Miniport.Formats.{
  is_format_supported, any_matches, format_matches, extension_matches,
}
use reai_board_sdk.Miniport.FormatLaws.{SomeAgrees, NoneAgrees, is_format_supported_lem}
use reai_board_sdk.Miniport.Table.{occurrences}
use reai_board_sdk.Miniport.Accounts.{IsAccounted, HasTable, OnlyCaptures}
use reai_board_sdk.Miniport.Streams.{
  done, then_step, create_capture, init-IsAccounted, created-closed,
}
use reai_board_sdk.Miniport.Attributes.{get_attributes}
use reai_board_sdk.Miniport.AttributeLaws.{IsRead, get_attributes-IsRead}
use reai_board_sdk.Miniport.AttributeRoundtrip.{attribute_list, attributes-roundtrip}
use reai_board_sdk.Miniport.Drm.{DrmPort, Mix, update_drm_rights}
use reai_board_sdk.Miniport.DrmLaws.{Balanced, update_drm_rights-Balanced}
use reai_board_sdk.Miniport.Create.{
  StreamAnswers, Streams, check_stream, init_stream, prepare_data, keep_or_release, new_stream,
}
use reai_board_sdk.Miniport.NewStream.{Created, new_stream-Created}

-- 48 kHz, 16 bits, two channels, extensible.
abbrev stereo : Format
stereo = record {
  format_size = 104;
  major_format = 1;
  sub_format = 2;
  specifier = 3;
  format_tag = 0xFFFE;
  channels = 2;
  samples_per_sec = 48000;
  block_align = 4;
  bits_per_sample = 16;
  cb_size = 22;
  valid_bits_per_sample = 16;
  channel_mask = 3;
  wave_sub_format = 1;
}

-- The same, as a plain PCM format.
abbrev plain : Format
plain = record stereo { format_tag = 1; cb_size = 0; channel_mask = 0 }

abbrev mono : Format
mono = record stereo { channels = 1 }

-- A render pin, its bridge, and a capture pin; room for two streams.
abbrev small : Miniport
small = record {
  pins =
      record { pin_type = system_render_pin; wave_formats = mono ∷ stereo ∷ []; modes = 7 ∷ 8 ∷ [] }
      ∷ record { pin_type = bridge_pin; wave_formats = []; modes = [] }
      ∷ record { pin_type = system_capture_pin; wave_formats = stereo ∷ []; modes = [] }
      ∷ [];
  beyond = λ pin. record { pin_type = no_pin; wave_formats = []; modes = [] };
  pin_count = 3;
  is_render_device = true;
  system_allocated = 1;
  max_system_streams = 2;
  system_streams = some 11 ∷ none ∷ [];
}

plain_supported : is_format_supported small 0 plain ≡ success
unfolding is_format_supported any_matches format_matches extension_matches
plain_supported = refl

full : validate_stream_create (stream_created small 0 12) 0 false ≡ insufficient_resources
unfolding validate_stream_create stream_created cache_stream
full = refl

is_format_supported_lem_example :
    ((0 < 3)
      × (is_format_supported small 0 plain ≡ success)
      × SomeAgrees plain (mono ∷ stereo ∷ []))
    ⊎ ((0 < 3)
        × (is_format_supported small 0 plain ≡ no_match)
        × NoneAgrees plain (mono ∷ stereo ∷ []))
    ⊎ ((3 ≤ 0) × (is_format_supported small 0 plain ≡ invalid_parameter))
is_format_supported_lem_example = is_format_supported_lem small 0 plain

table : HasTable small
unfolding HasTable
table = refl

small-IsAccounted : IsAccounted small 0
small-IsAccounted = record {
  slots = inl table;
  counted = refl;
  bounded = omega arith;
  small = omega arith;
}

small-render_room : validate_stream_create small 0 false ≡ success
unfolding validate_stream_create
small-render_room = refl

-- A microphone: the bridge and one pin to capture through, with room for one stream, before Init.
abbrev microphone : Miniport
microphone = record {
  pins =
      record { pin_type = bridge_pin; wave_formats = []; modes = [] }
      ∷ record { pin_type = system_capture_pin; wave_formats = stereo ∷ []; modes = 7 ∷ [] }
      ∷ [];
  beyond = λ pin. record { pin_type = system_render_pin; wave_formats = []; modes = [] };
  pin_count = 2;
  is_render_device = false;
  system_allocated = 5;
  max_system_streams = 1;
  system_streams = some 3 ∷ [];
}

microphone-OnlyCaptures : OnlyCaptures microphone
unfolding OnlyCaptures
microphone-OnlyCaptures zero h e = absurd (ground (arith, e))
microphone-OnlyCaptures (suc zero) h e = absurd (ground (arith, e))
microphone-OnlyCaptures (suc (suc pin)) h e = absurd (omega arith)

abbrev fresh : Miniport
fresh = record microphone { system_allocated = 0; system_streams = [] }

microphone-ready : init_miniport microphone true ≡ (success, fresh)
unfolding init_miniport
microphone-ready = refl

fresh-IsAccounted : IsAccounted fresh 0
unfolding OnlyCaptures
fresh-IsAccounted = record {
  slots = inr microphone-OnlyCaptures;
  counted = refl;
  bounded = omega arith;
  small = omega arith;
}

microphone-room : validate_stream_create (init_miniport microphone true).1 1 true ≡ success
unfolding validate_stream_create init_miniport
microphone-room = refl

microphone-through : pin_type_of (init_miniport microphone true).1 1 ≡ system_capture_pin
unfolding init_miniport
microphone-through = refl

init-IsAccounted_example : IsAccounted (stream_created (init_miniport microphone true).1 1 12) 1
init-IsAccounted_example =
    init-IsAccounted microphone true (omega arith) (λ h. microphone-OnlyCaptures)
      (ap (λ p. p.0) microphone-ready)
      (then_step done (create_capture 1 12 microphone-through microphone-room))

created-closed_example :
    let created = stream_created small 0 12 in
    let closed = free_stream created 0 12 in
    (occurrences created.system_streams 12 ≡ 1)
    × (occurrences closed.system_streams 11 ≡ 1)
    × (closed.system_allocated ≡ 1)
created-closed_example = created-closed 0 12 11 small-IsAccounted table refl small-render_room

abbrev guid : ℕ → List ℕ
guid n = replicate 16 n

get_attributes-IsRead_example :
    IsRead (get_attributes (guid 1) (guid 0) (255 ∷ 255 ∷ 255 ∷ 255 ∷ 255 ∷ 255 ∷ 255 ∷ 255 ∷ []) 8)
get_attributes-IsRead_example =
    get_attributes-IsRead (guid 1) (guid 0) (255 ∷ 255 ∷ 255 ∷ 255 ∷ 255 ∷ 255 ∷ 255 ∷ 255 ∷ []) 8
      (omega arith) (omega arith)

attributes-roundtrip_example :
    get_attributes (guid 1) (guid 0) (attribute_list (guid 1) (guid 2 ∷ guid 3 ∷ [])) 88
    ≡ some (success, guid 3)
attributes-roundtrip_example =
    attributes-roundtrip (guid 1) (guid 0) (guid 2 ∷ guid 3 ∷ []) refl (refl, (refl, refl))
      (omega arith)

-- A port that mixes contents into the content 9.
abbrev port : DrmPort
port = record {
  create_content_mixed = λ ids. (success, 9);
  get_content_rights = λ id. (success, 5);
}

abbrev mix : Mix
mix = record { mix_content_id = 4; mix_rights = 0; destroyed = [] }

update_drm_rights-Balanced_example :
    Balanced mix (update_drm_rights (some port) true (λ s. s) (some 11 ∷ none ∷ []) mix)
update_drm_rights-Balanced_example =
    update_drm_rights-Balanced (some port) true (λ s. s) (some 11 ∷ none ∷ []) mix

abbrev answers : StreamAnswers
answers = record {
  stream_memory = true;
  timer = true;
  has_waveformatex = true;
  dpc = true;
  format_memory = true;
  muted_memory = true;
  volume_memory = true;
  meter_memory = true;
  no_data_files = false;
  data_format = success;
  data_file = success;
}

-- A microphone between streams; the feed still has a byte of the stream before.
abbrev feed : Feed
feed = record { buffer = some (7 ∷ 8 ∷ []); size = 2; mask = 1; total_written = 1; total_read = 0 }

feed-IsLoaded : IsLoaded feed 1 (7 ∷ 8 ∷ [])
feed-IsLoaded = record {
  stored = refl;
  small = omega arith;
  sized = refl;
  whole = refl;
  masked = refl;
  written_in = omega arith;
  read_in = omega arith;
  fill = omega arith;
}

abbrev before : Streams
before = record { miniport = fresh; feed = feed }

new_stream-Created_example :
    Created before 1 true plain 12 1 (7 ∷ 8 ∷ []) (new_stream answers before 1 true plain none 12)
new_stream-Created_example =
    new_stream-Created answers before 1 true plain none 12 fresh-IsAccounted feed-IsLoaded
      (omega arith)

new_stream_run : (new_stream answers before 1 true plain none 12).0 ≡ success
unfolding new_stream check_stream validate_stream_create is_format_supported any_matches
    format_matches extension_matches init_stream prepare_data keep_or_release
new_stream_run = refl
