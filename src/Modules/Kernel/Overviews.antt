-- ===== src/Modules/Kernel/Overviews.antt =====
-- modules/kernel/kernel_mgr.c: the texts on the network stack, sk_buff and NAPI.
use Prim.Native.String.{String}
use nhan_linux_process.Prelude.{List, [], ◌∷◌}
use nhan_linux_process.System.World.{M}
use nhan_linux_process.Cli.Explain.{print_all}

abbrev pub network_stack_text : List String
network_stack_text =
    "\n======================================================================\n"
    ∷ "                  Linux Network Stack Packet Flow\n"
    ∷ "======================================================================\n"
    ∷ "   Application\n" ∷ "        ↓\n"
    ∷ "     Socket       (BSD Socket Interface, sock_create(), sys_socket())\n" ∷ "        ↓\n"
    ∷ "    TCP/UDP       (Transport Layer, tcp_v4_rcv(), tcp_sendmsg())\n" ∷ "        ↓\n"
    ∷ "  Network Stack   (Network/IP Layer, ip_rcv(), ip_output())\n" ∷ "        ↓\n"
    ∷ "     sk_buff      (Socket Buffer - packet metadata & structure)\n" ∷ "        ↓\n"
    ∷ "     Driver       (Net Device Driver, dev_queue_xmit(), ndo_start_xmit())\n" ∷ "        ↓\n"
    ∷ "      NIC         (Network Interface Card - Physical Layer / Hardware)\n"
    ∷ "\n------------------------- Stage Explanations -------------------------\n"
    ∷ "1. Application: Generates payload (e.g. HTTP, user data) and calls API functions\n"
    ∷ "   such as send(), write() or sendto() on a socket descriptor.\n"
    ∷ "2. Socket: Resolves user-space requests to kernel-space socket operations.\n"
    ∷ "   Initializes socket struct, checks socket type (STREAM/DGRAM) and bounds.\n"
    ∷ "3. TCP/UDP: Implements transport-layer protocol control blocks. Manages TCP states\n"
    ∷ "   (SYN, ACK, seq numbers, window sizes) or UDP connectionless datagram headers.\n"
    ∷ "4. Network Stack: Adds IP layer routing, fragmentation, TTL, and checksums.\n"
    ∷ "   Determines routing destination interfaces (ip_route_output_key()).\n"
    ∷ "5. sk_buff: Main C struct containing network packet data, packet length, offsets,\n"
    ∷ "   and pointer headers across all network stack boundaries.\n"
    ∷ "6. Driver: Receives packet headers and registers packet queue. Invokes hardware\n"
    ∷ "   transmit calls (ndo_start_xmit) to transfer data to the interface card.\n"
    ∷ "7. NIC: Translates digital frames into physical signals (optical/copper/wireless)\n"
    ∷ "   and transmits them onto the physical wire/air interface.\n"
    ∷ "======================================================================\n" ∷ []

unfoldable pub kernel_mgr_show_network_stack : M (Unit {0})
unfolding print_all
kernel_mgr_show_network_stack = print_all network_stack_text

abbrev pub sk_buff_text : List String
sk_buff_text =
    "\n======================================================================\n"
    ∷ "                    Linux kernel sk_buff struct Overview\n"
    ∷ "======================================================================\n"
    ∷ "Reference: include/linux/skbuff.h\n\n" ∷ "What is sk_buff?\n"
    ∷ "  The 'sk_buff' (socket buffer) is the most fundamental data structure in the\n"
    ∷ "  Linux networking subsystem. It represents an active packet currently in flight,\n"
    ∷ "  moving from user-space to a network device, or received by a network device\n"
    ∷ "  traveling up to user-space.\n\n" ∷ "Why Linux uses it:\n"
    ∷ "  1. Avoids Data Copying: Layer headers (transport, network, link) are parsed\n"
    ∷ "     and shifted without copying the payload. Only pointers inside sk_buff change.\n"
    ∷ "  2. Flexibility: Standardizes packet representations across different network cards,\n"
    ∷ "     protocols (IPv4, IPv6, AppleTalk, etc.), and routing logic.\n\n"
    ∷ "Crucial Fields in struct sk_buff:\n"
    ∷ "  - next / prev: Pointers to chain buffers in lists (e.g. device output queues).\n"
    ∷ "  - dev: Points to the net_device struct currently managing the packet.\n"
    ∷ "  - len: Length of total packet data contained in this buffer.\n"
    ∷ "  - data_len: Length of data stored in paged fragments (not contiguous).\n"
    ∷ "  - mac_header, network_header, transport_header: Offsets to protocol headers.\n"
    ∷ "  - head, data, tail, end: Boundary pointers referencing the allocated data block:\n"
    ∷ "      * head: Points to the start of allocated RAM space.\n"
    ∷ "      * data: Points to the start of current layer packet data.\n"
    ∷ "      * tail: Points to the end of current layer packet data.\n"
    ∷ "      * end: Points to the maximum memory boundary.\n"
    ∷ "  - cb[48]: Control buffer space reserved for internal layer-specific storage.\n\n"
    ∷ "Lifecycle of sk_buff:\n"
    ∷ "  1. Allocation: dev_alloc_skb() (on packet RX) or alloc_skb() (on TX).\n"
    ∷ "  2. Header Operations: \n"
    ∷ "     - skb_reserve(): Allocates headroom for link/network headers.\n"
    ∷ "     - skb_put(): Expands data region downwards (tail advances).\n"
    ∷ "     - skb_push(): prepends data/headers to the beginning (data moves left).\n"
    ∷ "     - skb_push(): prepends data/headers to the beginning (data moves left).\n"
    ∷ "     - skb_pull(): removes data from the beginning (data moves right).\n"
    ∷ "  3. Freeing: kfree_skb() (reclaimed) or dev_kfree_skb() (after hardware TX).\n"
    ∷ "======================================================================\n" ∷ []

unfoldable pub kernel_mgr_show_sk_buff_overview : M (Unit {0})
unfolding print_all
kernel_mgr_show_sk_buff_overview = print_all sk_buff_text

abbrev pub napi_text : List String
napi_text =
    "\n======================================================================\n"
    ∷ "                 NAPI (New API) Interrupt Mitigation Overview\n"
    ∷ "======================================================================\n" ∷ "What is NAPI?\n"
    ∷ "  NAPI is an extension to the device driver interface in the Linux kernel designed\n"
    ∷ "  to handle high packet rates efficiently by combining polling and interrupt-driven\n"
    ∷ "  mechanisms.\n\n" ∷ "The Problem: Interrupt Storms\n"
    ∷ "  In high-throughput networks (e.g. 10Gbps+), if the network interface card (NIC)\n"
    ∷ "  triggers an interrupt for every single incoming packet, the CPU becomes completely\n"
    ∷ "  saturated responding to interrupts (softirqs), leaving no time to actually run\n"
    ∷ "  applications. This is called 'Receive Livelock'.\n\n" ∷ "NAPI Hybrid Mechanism:\n"
    ∷ "  1. First Packet (Interrupt Mode):\n"
    ∷ "     The NIC receives a packet and triggers a hardware interrupt.\n"
    ∷ "  2. Disable Interrupts:\n"
    ∷ "     The driver registers its interface to the kernel's polling list (napi_schedule())\n"
    ∷ "     and disables receive interrupts on the NIC.\n" ∷ "  3. Polling Mode:\n"
    ∷ "     The kernel softirq system polls the driver's poll() function (e.g., netif_rx())\n"
    ∷ "     to process a budget number of packets (e.g., 64 at a time) directly from ring buffers.\n"
    ∷ "  4. Re-enable Interrupts:\n"
    ∷ "     Once the NIC receive queue is empty, the driver removes itself from the polling list\n"
    ∷ "     and re-enables receive interrupts on the NIC.\n\n" ∷ "NAPI Benefits:\n"
    ∷ "  - Prevents Receive Livelock: Under high loads, driver automatically runs in polling mode.\n"
    ∷ "  - High efficiency: Drastically reduces the number of CPU interrupts under load.\n"
    ∷ "  - Flow control: Packet queue drops happen early on the NIC interface rather than memory.\n"
    ∷ "======================================================================\n" ∷ []

unfoldable pub kernel_mgr_show_napi_overview : M (Unit {0})
unfolding print_all
kernel_mgr_show_napi_overview = print_all napi_text
