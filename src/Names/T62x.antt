-- ===== src/Names/T62x.antt =====
-- hwc_names.hpp: the counter names of the T62x GPUs, 64 for each of the four blocks in the order of
-- their memory layout. An empty name is a hole in the block.
use hwcpipe.Common.{String, List, [], ◌∷◌, ◌++◌}

abbrev pub job_manager : List String
job_manager =
    "" ∷ "" ∷ "" ∷ "" ∷ "T62x_MESSAGES_SENT" ∷ "T62x_MESSAGES_RECEIVED" ∷ "T62x_GPU_ACTIVE"
    ∷ "T62x_IRQ_ACTIVE" ∷ "T62x_JS0_JOBS" ∷ "T62x_JS0_TASKS" ∷ "T62x_JS0_ACTIVE" ∷ ""
    ∷ "T62x_JS0_WAIT_READ" ∷ "T62x_JS0_WAIT_ISSUE" ∷ "T62x_JS0_WAIT_DEPEND" ∷ "T62x_JS0_WAIT_FINISH"
    ∷ "T62x_JS1_JOBS" ∷ "T62x_JS1_TASKS" ∷ "T62x_JS1_ACTIVE" ∷ "" ∷ "T62x_JS1_WAIT_READ"
    ∷ "T62x_JS1_WAIT_ISSUE" ∷ "T62x_JS1_WAIT_DEPEND" ∷ "T62x_JS1_WAIT_FINISH" ∷ "T62x_JS2_JOBS"
    ∷ "T62x_JS2_TASKS" ∷ "T62x_JS2_ACTIVE" ∷ "" ∷ "T62x_JS2_WAIT_READ" ∷ "T62x_JS2_WAIT_ISSUE"
    ∷ "T62x_JS2_WAIT_DEPEND" ∷ "T62x_JS2_WAIT_FINISH" ∷ "" ∷ "" ∷ "" ∷ "" ∷ "" ∷ "" ∷ "" ∷ "" ∷ ""
    ∷ "" ∷ "" ∷ "" ∷ "" ∷ "" ∷ "" ∷ "" ∷ "" ∷ "" ∷ "" ∷ "" ∷ "" ∷ "" ∷ "" ∷ "" ∷ "" ∷ "" ∷ "" ∷ ""
    ∷ "" ∷ "" ∷ "" ∷ "" ∷ []

abbrev pub tiler : List String
tiler =
    "" ∷ "" ∷ "" ∷ "T62x_TI_JOBS_PROCESSED" ∷ "T62x_TI_TRIANGLES" ∷ "T62x_TI_QUADS"
    ∷ "T62x_TI_POLYGONS" ∷ "T62x_TI_POINTS" ∷ "T62x_TI_LINES" ∷ "T62x_TI_VCACHE_HIT"
    ∷ "T62x_TI_VCACHE_MISS" ∷ "T62x_TI_FRONT_FACING" ∷ "T62x_TI_BACK_FACING"
    ∷ "T62x_TI_PRIM_VISIBLE" ∷ "T62x_TI_PRIM_CULLED" ∷ "T62x_TI_PRIM_CLIPPED" ∷ "T62x_TI_LEVEL0"
    ∷ "T62x_TI_LEVEL1" ∷ "T62x_TI_LEVEL2" ∷ "T62x_TI_LEVEL3" ∷ "T62x_TI_LEVEL4" ∷ "T62x_TI_LEVEL5"
    ∷ "T62x_TI_LEVEL6" ∷ "T62x_TI_LEVEL7" ∷ "T62x_TI_COMMAND_1" ∷ "T62x_TI_COMMAND_2"
    ∷ "T62x_TI_COMMAND_3" ∷ "T62x_TI_COMMAND_4" ∷ "T62x_TI_COMMAND_5_7" ∷ "T62x_TI_COMMAND_8_15"
    ∷ "T62x_TI_COMMAND_16_63" ∷ "T62x_TI_COMMAND_64" ∷ "T62x_TI_COMPRESS_IN"
    ∷ "T62x_TI_COMPRESS_OUT" ∷ "T62x_TI_COMPRESS_FLUSH" ∷ "T62x_TI_TIMESTAMPS"
    ∷ "T62x_TI_PCACHE_HIT" ∷ "T62x_TI_PCACHE_MISS" ∷ "T62x_TI_PCACHE_LINE" ∷ "T62x_TI_PCACHE_STALL"
    ∷ "T62x_TI_WRBUF_HIT" ∷ "T62x_TI_WRBUF_MISS" ∷ "T62x_TI_WRBUF_LINE" ∷ "T62x_TI_WRBUF_PARTIAL"
    ∷ "T62x_TI_WRBUF_STALL" ∷ "T62x_TI_ACTIVE" ∷ "T62x_TI_LOADING_DESC" ∷ "T62x_TI_INDEX_WAIT"
    ∷ "T62x_TI_INDEX_RANGE_WAIT" ∷ "T62x_TI_VERTEX_WAIT" ∷ "T62x_TI_PCACHE_WAIT"
    ∷ "T62x_TI_WRBUF_WAIT" ∷ "T62x_TI_BUS_READ" ∷ "T62x_TI_BUS_WRITE" ∷ "" ∷ "" ∷ "" ∷ "" ∷ ""
    ∷ "T62x_TI_UTLB_STALL" ∷ "T62x_TI_UTLB_REPLAY_MISS" ∷ "T62x_TI_UTLB_REPLAY_FULL"
    ∷ "T62x_TI_UTLB_NEW_MISS" ∷ "T62x_TI_UTLB_HIT" ∷ []

abbrev pub shader : List String
shader =
    "" ∷ "" ∷ "" ∷ "T62x_SHADER_CORE_ACTIVE" ∷ "T62x_FRAG_ACTIVE" ∷ "T62x_FRAG_PRIMITIVES"
    ∷ "T62x_FRAG_PRIMITIVES_DROPPED" ∷ "T62x_FRAG_CYCLES_DESC" ∷ "T62x_FRAG_CYCLES_FPKQ_ACTIVE"
    ∷ "T62x_FRAG_CYCLES_VERT" ∷ "T62x_FRAG_CYCLES_TRISETUP" ∷ "T62x_FRAG_CYCLES_EZS_ACTIVE"
    ∷ "T62x_FRAG_THREADS" ∷ "T62x_FRAG_DUMMY_THREADS" ∷ "T62x_FRAG_QUADS_RAST"
    ∷ "T62x_FRAG_QUADS_EZS_TEST" ∷ "T62x_FRAG_QUADS_EZS_KILLED" ∷ "T62x_FRAG_THREADS_LZS_TEST"
    ∷ "T62x_FRAG_THREADS_LZS_KILLED" ∷ "T62x_FRAG_CYCLES_NO_TILE" ∷ "T62x_FRAG_NUM_TILES"
    ∷ "T62x_FRAG_TRANS_ELIM" ∷ "T62x_COMPUTE_ACTIVE" ∷ "T62x_COMPUTE_TASKS" ∷ "T62x_COMPUTE_THREADS"
    ∷ "T62x_COMPUTE_CYCLES_DESC" ∷ "T62x_TRIPIPE_ACTIVE" ∷ "T62x_ARITH_WORDS"
    ∷ "T62x_ARITH_CYCLES_REG" ∷ "T62x_ARITH_CYCLES_L0" ∷ "T62x_ARITH_FRAG_DEPEND" ∷ "T62x_LS_WORDS"
    ∷ "T62x_LS_ISSUES" ∷ "T62x_LS_RESTARTS" ∷ "T62x_LS_REISSUES_MISS" ∷ "T62x_LS_REISSUES_VD"
    ∷ "T62x_LS_REISSUE_ATTRIB_MISS" ∷ "T62x_LS_NO_WB" ∷ "T62x_TEX_WORDS" ∷ "T62x_TEX_BUBBLES"
    ∷ "T62x_TEX_WORDS_L0" ∷ "T62x_TEX_WORDS_DESC" ∷ "T62x_TEX_ISSUES" ∷ "T62x_TEX_RECIRC_FMISS"
    ∷ "T62x_TEX_RECIRC_DESC" ∷ "T62x_TEX_RECIRC_MULTI" ∷ "T62x_TEX_RECIRC_PMISS"
    ∷ "T62x_TEX_RECIRC_CONF" ∷ "T62x_LSC_READ_HITS" ∷ "T62x_LSC_READ_MISSES" ∷ "T62x_LSC_WRITE_HITS"
    ∷ "T62x_LSC_WRITE_MISSES" ∷ "T62x_LSC_ATOMIC_HITS" ∷ "T62x_LSC_ATOMIC_MISSES"
    ∷ "T62x_LSC_LINE_FETCHES" ∷ "T62x_LSC_DIRTY_LINE" ∷ "T62x_LSC_SNOOPS" ∷ "T62x_AXI_TLB_STALL"
    ∷ "T62x_AXI_TLB_MISS" ∷ "T62x_AXI_TLB_TRANSACTION" ∷ "T62x_LS_TLB_MISS" ∷ "T62x_LS_TLB_HIT"
    ∷ "T62x_AXI_BEATS_READ" ∷ "T62x_AXI_BEATS_WRITTEN" ∷ []

abbrev pub memory_system : List String
memory_system =
    "" ∷ "" ∷ "" ∷ "" ∷ "T62x_MMU_HIT" ∷ "T62x_MMU_NEW_MISS" ∷ "T62x_MMU_REPLAY_FULL"
    ∷ "T62x_MMU_REPLAY_MISS" ∷ "T62x_MMU_TABLE_WALK" ∷ "" ∷ "" ∷ "" ∷ "" ∷ "" ∷ "" ∷ ""
    ∷ "T62x_UTLB_HIT" ∷ "T62x_UTLB_NEW_MISS" ∷ "T62x_UTLB_REPLAY_FULL" ∷ "T62x_UTLB_REPLAY_MISS"
    ∷ "T62x_UTLB_STALL" ∷ "" ∷ "" ∷ "" ∷ "" ∷ "" ∷ "" ∷ "" ∷ "" ∷ "" ∷ "T62x_L2_EXT_WRITE_BEATS"
    ∷ "T62x_L2_EXT_READ_BEATS" ∷ "T62x_L2_ANY_LOOKUP" ∷ "T62x_L2_READ_LOOKUP"
    ∷ "T62x_L2_SREAD_LOOKUP" ∷ "T62x_L2_READ_REPLAY" ∷ "T62x_L2_READ_SNOOP" ∷ "T62x_L2_READ_HIT"
    ∷ "T62x_L2_CLEAN_MISS" ∷ "T62x_L2_WRITE_LOOKUP" ∷ "T62x_L2_SWRITE_LOOKUP"
    ∷ "T62x_L2_WRITE_REPLAY" ∷ "T62x_L2_WRITE_SNOOP" ∷ "T62x_L2_WRITE_HIT" ∷ "T62x_L2_EXT_READ_FULL"
    ∷ "T62x_L2_EXT_READ_HALF" ∷ "T62x_L2_EXT_WRITE_FULL" ∷ "T62x_L2_EXT_WRITE_HALF"
    ∷ "T62x_L2_EXT_READ" ∷ "T62x_L2_EXT_READ_LINE" ∷ "T62x_L2_EXT_WRITE" ∷ "T62x_L2_EXT_WRITE_LINE"
    ∷ "T62x_L2_EXT_WRITE_SMALL" ∷ "T62x_L2_EXT_BARRIER" ∷ "T62x_L2_EXT_AR_STALL"
    ∷ "T62x_L2_EXT_R_BUF_FULL" ∷ "T62x_L2_EXT_RD_BUF_FULL" ∷ "T62x_L2_EXT_R_RAW"
    ∷ "T62x_L2_EXT_W_STALL" ∷ "T62x_L2_EXT_W_BUF_FULL" ∷ "T62x_L2_EXT_R_W_HAZARD"
    ∷ "T62x_L2_TAG_HAZARD" ∷ "T62x_L2_SNOOP_FULL" ∷ "T62x_L2_REPLAY_FULL" ∷ []

unfoldable pub hardware_counters : List String
hardware_counters = job_manager ++ (tiler ++ (shader ++ memory_system))
